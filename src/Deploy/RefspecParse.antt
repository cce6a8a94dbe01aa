-- ===== src/Deploy/RefspecParse.antt =====
-- How a partial refspec is completed: rpmostreed_refspec_parse_partial of
-- src/daemon/rpmostreed-utils.cxx.
use rpm_ostree.Prelude.{
  append-nil, ℕ, ◌≡◌, refl, sym, ap, ◌∙◌, inl, inr, Bool, true, false, not, ◌&&◌, ◌||◌, Option,
  none, some, [], ◌∷◌, ◌++◌, ◌==◌, leb, arith, Option-cases, if◌then◌else◌,
}
use rpm_ostree.Prelude.Text.{Text}
use rpm_ostree.Prelude.Result.{Result, ok}
use rpm_ostree.Deploy.Refspec.{
  without_colon, parsed, after_colon, provided, origin_of, completed, refspec_parse_partial,
}

-- No byte is a colon.
abbrev pub no_colon : Text → Bool
no_colon [] = true
no_colon (a ∷ t) = not (a == 58) && no_colon t

-- Not empty, and without a colon.
abbrev pub IsName : Text → Type 0
IsName [] = ⊥
IsName (a ∷ t) = no_colon (a ∷ t) ≡ true

-- [-._\w\d]: a byte of a fragment of a ref.
abbrev pub is_fragment_byte : ℕ → Bool
is_fragment_byte b =
    (leb 48 b && leb b 57)
    || (leb 65 b && leb b 90)
    || (leb 97 b && leb b 122)
    || b == 45
    || b == 46
    || b == 95

-- Fragments with a "/" between them, where slashes are allowed; `start` says whether a fragment begins.
abbrev pub is_fragments : Bool → Bool → Text → Bool
is_fragments slashes start [] = not start
is_fragments slashes start (b ∷ t) =
    if is_fragment_byte b
    then is_fragments slashes false t
    else b == 47 && slashes && not start && is_fragments slashes true t

-- The names of remotes and the refs that libostree takes, OSTREE_REMOTE_NAME_REGEXP and OSTREE_REF_REGEXP.
abbrev pub IsRemote : Text → Type 0
IsRemote t = is_fragments false true t ≡ true

abbrev pub IsRef : Text → Type 0
IsRef t = is_fragments true true t ≡ true

-- ostree_parse_refspec on a ref, and on a remote and a ref.
pub record Parses (parse : Text → Result (Option Text × Text)) : Type 0 where
  pub parse-ref : (ref : Text) → IsRef ref → parse ref ≡ ok (none, ref)
  pub parse-both :
      (remote ref : Text)
      → IsRemote remote
      → IsRef ref
      → parse (remote ++ 58 ∷ ref) ≡ ok (some remote, ref)

fragments_no_colon :
    (slashes start : Bool) (t : Text) → is_fragments slashes start t ≡ true → no_colon t ≡ true
fragments_no_colon slashes start [] h = refl
fragments_no_colon slashes start (b ∷ t) h =
    ground (arith, h, fragments_no_colon slashes false t, fragments_no_colon slashes true t)

pub fragments-IsName : (slashes : Bool) (t : Text) → is_fragments slashes true t ≡ true → IsName t
fragments-IsName slashes [] h = ground (arith, h)
fragments-IsName slashes (b ∷ t) h = fragments_no_colon slashes true (b ∷ t) h

abbrev prepend : Text → Option Text → Option Text
prepend xs none = none
prepend xs (some r) = some (xs ++ r)

without_colon-append :
    (xs : Text) (y : ℕ) (ys : Text)
    → without_colon (xs ++ y ∷ ys) ≡ prepend xs (without_colon (y ∷ ys))
unfolding without_colon
without_colon-append [] y ys = elim (Option-cases (without_colon (y ∷ ys))) [
  | inl n ↦ ground (arith, n)
  | inr (r, s) ↦ ground (arith, s)
]
without_colon-append (x ∷ []) y ys = elim (Option-cases (without_colon (y ∷ ys))) [
  | inl n ↦ ground (arith, n)
  | inr (r, s) ↦ ground (arith, s)
]
without_colon-append (x ∷ z ∷ xs) y ys = elim (Option-cases (without_colon (y ∷ ys))) [
  | inl n ↦ ground (arith, n, without_colon-append (z ∷ xs) y ys)
  | inr (r, s) ↦ ground (arith, s, without_colon-append (z ∷ xs) y ys)
]

without_colon-no_colon : (t : Text) → no_colon t ≡ true → without_colon t ≡ none
unfolding without_colon
without_colon-no_colon [] h = refl
without_colon-no_colon (a ∷ []) h = ground (arith, h)
without_colon-no_colon (a ∷ b ∷ t) h = ground (arith, h, without_colon-no_colon (b ∷ t))

without_colon-IsName : (t : Text) → IsName t → without_colon t ≡ none
without_colon-IsName [] h = elim h [ ]
without_colon-IsName (a ∷ t) h = without_colon-no_colon (a ∷ t) h

after_colon-IsName : (t rest : Text) → IsName t → after_colon (t ++ rest) ≡ none
after_colon-IsName [] rest h = elim h [ ]
after_colon-IsName (a ∷ t) rest h = ground (arith, h)

without_colon-rest : (t : Text) → IsName t → without_colon (58 ∷ t) ≡ none
unfolding without_colon
without_colon-rest [] h = elim h [ ]
without_colon-rest (a ∷ t) h = ground (arith, without_colon-no_colon (a ∷ t) h)

-- A name after a colon does not end with one.
without_colon-inner : (xs ref : Text) → IsName ref → without_colon (xs ++ 58 ∷ ref) ≡ none
without_colon-inner xs ref h =
    without_colon-append xs 58 ref ∙ ap (prepend xs) (without_colon-rest ref h)

module _ (parse : Text → Result (Option Text × Text)) (law : Parses parse) where
  provided-ref : (ref : Text) → IsRef ref → provided parse ref ≡ ok (parsed (none, ref))
  unfolding provided
  provided-ref ref h = rw (
    without_colon-IsName ref (fragments-IsName true ref h),
    sym (ap after_colon (append-nil ref)) ∙ after_colon-IsName ref [] (fragments-IsName true ref h),
    law.parse-ref ref h,
  )

  provided-both :
      (remote ref : Text)
      → IsRemote remote
      → IsRef ref
      → provided parse (remote ++ 58 ∷ ref) ≡ ok (parsed (some remote, ref))
  unfolding provided
  provided-both remote ref h k = rw (
    without_colon-inner remote ref (fragments-IsName true ref k),
    after_colon-IsName remote (58 ∷ ref) (fragments-IsName false remote h),
    law.parse-both remote ref h k,
  )

  provided-local :
      (ref : Text)
      → IsRef ref
      → provided parse (58 ∷ ref)
        ≡ ok (record { remote = none; ref = some ref; infer_remote = false })
  unfolding provided
  provided-local ref k = rw (without_colon-inner [] ref (fragments-IsName true ref k))

  provided-remote :
      (remote : Text)
      → provided parse (remote ++ 58 ∷ [])
        ≡ ok (record { remote = some remote; ref = none; infer_remote = true })
  unfolding provided without_colon
  provided-remote remote = rw (without_colon-append remote 58 [], append-nil remote)

  origin_of-both :
      (remote ref : Text)
      → IsRemote remote
      → IsRef ref
      → origin_of parse (some (remote ++ 58 ∷ ref)) ≡ ok (some remote, some ref)
  unfolding origin_of
  origin_of-both remote ref h k = rw (law.parse-both remote ref h k)

  -- For remotes and refs in the form that libostree takes, against a base with a remote and a ref, each form
  -- of a refspec is completed as it should be: "remote:" keeps the ref, ":ref" means a local ref, "ref" keeps
  -- the remote, and "remote:ref" is left as it is.
  pub refspec_parse_partial-completes :
      (old_remote old_ref remote ref : Text)
      → IsRemote old_remote
      → IsRef old_ref
      → IsRemote remote
      → IsRef ref
      → (refspec_parse_partial parse (remote ++ 58 ∷ []) (some (old_remote ++ 58 ∷ old_ref))
          ≡ ok (remote ++ 58 ∷ old_ref))
        × (refspec_parse_partial parse (58 ∷ ref) (some (old_remote ++ 58 ∷ old_ref)) ≡ ok ref)
        × (refspec_parse_partial parse ref (some (old_remote ++ 58 ∷ old_ref))
            ≡ ok (old_remote ++ 58 ∷ ref))
        × (refspec_parse_partial parse (remote ++ 58 ∷ ref) (some (old_remote ++ 58 ∷ old_ref))
            ≡ ok (remote ++ 58 ∷ ref))
  unfolding refspec_parse_partial completed
  refspec_parse_partial-completes old_remote old_ref remote ref a b c d =
      let origin = origin_of-both old_remote old_ref a b in
      (
        rw (provided-remote remote, origin),
        rw (provided-local ref d, origin),
        rw (provided-ref ref d, origin),
        rw (provided-both remote ref c d, origin),
      )
