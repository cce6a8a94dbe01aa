-- ===== src/Rpm/BranchLaws.antt =====
-- The branch name of a package determines the package, and rust/src/rpmutils.rs reads it back.
use rpm_ostree.Prelude.{
  ℕ, ◌+◌, ◌*◌, ◌/◌, ◌%◌, ◌≤◌, ◌<◌, ◌≡◌, ◌≢◌, refl, some, [], ◌∷◌, ◌++◌, arith, append_assoc,
  append-nil, All, All-append, ap, sym, subst, ◌∙◌,
}
use rpm_ostree.Prelude.Text.{Text, codes}
use rpm_ostree.Rpm.Branch.{
  hex_digit, quote_char, append_quoted, drop_zero_epoch, cache_branch, hexval, plain, unquote,
  cache_branch_to_nevra,
}

abbrev pub IsAscii : Text → Type 0
IsAscii = All (λ c. c < 128)

-- What append_quoted appends.
pub quoted : Text → Text
quoted [] = []
quoted (c ∷ v) = quote_char c ++ quoted v

append_quoted-eq : (r v : Text) → append_quoted r v ≡ r ++ quoted v
unfolding append_quoted quoted
append_quoted-eq r [] = simp append-nil
append_quoted-eq r (c ∷ v) =
    append_quoted-eq (r ++ quote_char c) v ∙ append_assoc r (quote_char c) (quoted v)

unquote-plain : (c : ℕ) (s : Text) → c ≢ 95 → unquote (c ∷ s) ≡ plain c ∷ unquote s
unfolding unquote
unquote-plain c [] h = ground arith
unquote-plain c (d ∷ []) h = ground arith
unquote-plain c (d ∷ e ∷ s) h = ground arith

unquote-underscore : (s : Text) → unquote (95 ∷ 95 ∷ s) ≡ 95 ∷ unquote s
unfolding unquote
unquote-underscore [] = refl
unquote-underscore (e ∷ s) = refl

hexval-hex_digit : (d : ℕ) → d < 16 → hexval (hex_digit d) ≡ some d
unfolding hexval hex_digit
hexval-hex_digit d h = ground arith

hex_digit-ne : (d : ℕ) → d < 16 → hex_digit d ≢ 95
unfolding hex_digit
hex_digit-ne d h = ground arith

unquote-escape :
    (a b : ℕ) (s : Text)
    → a < 16
    → b < 16
    → unquote (95 ∷ hex_digit a ∷ hex_digit b ∷ s) ≡ (a * 16 + b) ∷ unquote s
unfolding unquote
unquote-escape a b s h k =
    ground (arith, hexval-hex_digit a h, hexval-hex_digit b k, hex_digit-ne a h)

unquote-quote_char : (c : ℕ) (s : Text) → c < 128 → unquote (quote_char c ++ s) ≡ c ∷ unquote s
unfolding quote_char
unquote-quote_char c s h = ground (
  arith,
  unquote-plain c s,
  unquote-underscore s,
  unquote-escape (c / 16) (c % 16) s (omega arith) (omega arith),
)

unquote-quoted : (v s : Text) → IsAscii v → unquote (quoted v ++ s) ≡ v ++ unquote s
unfolding quoted
unquote-quoted [] s h = refl
unquote-quoted (c ∷ v) s h =
    rw (append_assoc (quote_char c) (quoted v) s)
      (unquote-quote_char c (quoted v ++ s) h.0 ∙ ap (λ r. c ∷ r) (unquote-quoted v s h.1))

unquote-quoted_end : (v : Text) → IsAscii v → unquote (quoted v) ≡ v
unfolding unquote
unquote-quoted_end v h =
    ap unquote (sym (append-nil (quoted v))) ∙ unquote-quoted v [] h ∙ append-nil v

-- What follows the prefix in a branch name.
abbrev body : Text → Text → Text → Text
body name evr arch = quoted name ++ (47 ∷ (quoted evr ++ (46 ∷ quoted arch)))

cache_branch-eq :
    (name evr arch : Text)
    → cache_branch name evr arch ≡ codes "rpmostree/pkg/" ++ body name (drop_zero_epoch evr) arch
unfolding cache_branch
cache_branch-eq name evr arch = simp (append_quoted-eq, append_assoc)

unquote-body :
    (name evr arch : Text)
    → IsAscii name
    → IsAscii evr
    → IsAscii arch
    → unquote (body name evr arch) ≡ name ++ (45 ∷ (evr ++ (46 ∷ arch)))
unquote-body name evr arch hn he ha =
    unquote-quoted name _ hn
    ∙ ap (λ r. name ++ r)
        (unquote-plain 47 (quoted evr ++ (46 ∷ quoted arch)) (omega arith)
          ∙ ap (λ r. 45 ∷ r)
              (unquote-quoted evr (46 ∷ quoted arch) he
                ∙ ap (λ r. evr ++ r)
                    (unquote-plain 46 (quoted arch) (omega arith)
                      ∙ ap (λ r. 46 ∷ r) (unquote-quoted_end arch ha))))

-- The branch of a package whose name, version and architecture are ASCII is read back as
-- NAME-EVR.ARCH, the zero epoch dropped.
pub cache_branch_to_nevra-cache_branch :
    (name evr arch : Text)
    → IsAscii name
    → IsAscii (drop_zero_epoch evr)
    → IsAscii arch
    → cache_branch_to_nevra (cache_branch name evr arch)
      ≡ some (name ++ (45 ∷ (drop_zero_epoch evr ++ (46 ∷ arch))))
unfolding cache_branch_to_nevra
cache_branch_to_nevra-cache_branch name evr arch hn he ha =
    rw cache_branch-eq (ap some (unquote-body name (drop_zero_epoch evr) arch hn he ha))

hex_digit-high : (c : ℕ) → 128 ≤ c → c < 256 → hex_digit (c / 16) ≢ 95
unfolding hex_digit
hex_digit-high c h k = ground arith

-- A byte from 128 on is not read back: it was written as a negative number, and comes back as
-- U+00FF followed by four letters F and its own two digits.
unquote-high :
    (c : ℕ) (s : Text)
    → 128 ≤ c
    → c < 256
    → unquote (quote_char c ++ s)
      ≡ 255 ∷ 70 ∷ 70 ∷ 70 ∷ 70 ∷ unquote (hex_digit (c / 16) ∷ hex_digit (c % 16) ∷ s)
unfolding unquote quote_char
unquote-high c s h k = ground arith

-- A separator that occurs in neither head determines where a text was joined.
abbrev Avoids : ℕ → Text → Type 0
Avoids x = All (λ c. c ≢ x)

join_first :
    (x : ℕ) (a b a' b' : Text)
    → Avoids x a
    → Avoids x a'
    → a ++ (x ∷ b) ≡ a' ++ (x ∷ b')
    → (a ≡ a') × (b ≡ b')
join_first x [] b [] b' h k e = (refl, cc)
join_first x [] b (c ∷ a') b' h k e = absurd (k.0 (cc))
join_first x (c ∷ a) b [] b' h k e = absurd (h.0 (cc))
join_first x (c ∷ a) b (d ∷ a') b' h k e = ground (arith, join_first x a b a' b' h.1 k.1)

Avoids-middle : (x : ℕ) (a b : Text) → Avoids x (a ++ (x ∷ b)) → ⊥
Avoids-middle x [] b h = h.0 refl
Avoids-middle x (c ∷ a) b h = Avoids-middle x a b h.1

join_last :
    (x : ℕ) (a b a' b' : Text)
    → Avoids x b
    → Avoids x b'
    → a ++ (x ∷ b) ≡ a' ++ (x ∷ b')
    → (a ≡ a') × (b ≡ b')
join_last x [] b [] b' h k e = (refl, cc)
join_last x [] b (c ∷ a') b' h k e = absurd (Avoids-middle x a' b' (subst (Avoids x) (tail_eq e) h))
  where
    tail_eq : x ∷ b ≡ c ∷ (a' ++ (x ∷ b')) → b ≡ a' ++ (x ∷ b')
    tail_eq e = cc
join_last x (c ∷ a) b [] b' h k e = absurd (Avoids-middle x a b (subst (Avoids x) (tail_eq e) k))
  where
    tail_eq : c ∷ (a ++ (x ∷ b)) ≡ x ∷ b' → b' ≡ a ++ (x ∷ b)
    tail_eq e = cc
join_last x (c ∷ a) b (d ∷ a') b' h k e = ground (arith, join_last x a b a' b' h k)

hex_digit-Avoids : (d : ℕ) → d < 16 → (hex_digit d ≢ 47) × (hex_digit d ≢ 46)
unfolding hex_digit
hex_digit-Avoids d h = ground arith

quote_char-no_slash : (c : ℕ) → c < 256 → Avoids 47 (quote_char c)
unfolding quote_char
quote_char-no_slash c h =
    ground (arith, hex_digit-Avoids (c / 16) (omega arith), hex_digit-Avoids (c % 16) (omega arith))

quote_char-no_dot : (c : ℕ) → c < 256 → c ≢ 46 → Avoids 46 (quote_char c)
unfolding quote_char
quote_char-no_dot c h n =
    ground (arith, hex_digit-Avoids (c / 16) (omega arith), hex_digit-Avoids (c % 16) (omega arith))

quoted-no_slash : (v : Text) → IsAscii v → Avoids 47 (quoted v)
unfolding quoted
quoted-no_slash [] h = tt
quoted-no_slash (c ∷ v) h =
    All-append _ (quote_char c) (quoted v) (quote_char-no_slash c (omega (arith, h.0)))
      (quoted-no_slash v h.1)

quoted-no_dot : (v : Text) → IsAscii v → Avoids 46 v → Avoids 46 (quoted v)
unfolding quoted
quoted-no_dot [] h n = tt
quoted-no_dot (c ∷ v) h n =
    All-append _ (quote_char c) (quoted v) (quote_char-no_dot c (omega (arith, h.0)) n.0)
      (quoted-no_dot v h.1 n.1)

quoted_injective : (u v : Text) → IsAscii u → IsAscii v → quoted u ≡ quoted v → u ≡ v
quoted_injective u v hu hv e =
    sym (unquote-quoted_end u hu) ∙ ap unquote e ∙ unquote-quoted_end v hv

same_body : (x y : Text) → codes "rpmostree/pkg/" ++ x ≡ codes "rpmostree/pkg/" ++ y → x ≡ y
same_body x y e = cc

-- Two packages have the same branch only if they have the same name, the same version but for a
-- zero epoch, and the same architecture; names, versions and architectures are ASCII, and
-- architectures have no dot.
pub cache_branch_injective :
    (n e a n' e' a' : Text)
    → IsAscii n
    → IsAscii (drop_zero_epoch e)
    → IsAscii a
    → IsAscii n'
    → IsAscii (drop_zero_epoch e')
    → IsAscii a'
    → Avoids 46 a
    → Avoids 46 a'
    → cache_branch n e a ≡ cache_branch n' e' a'
    → (n ≡ n') × (drop_zero_epoch e ≡ drop_zero_epoch e') × (a ≡ a')
cache_branch_injective n e a n' e' a' hn he ha hn' he' ha' da da' same =
    let (en, rest) = join_first 47 _ _ _ _ (quoted-no_slash n hn) (quoted-no_slash n' hn') (
      same_body (body n (drop_zero_epoch e) a) (body n' (drop_zero_epoch e') a')
        (sym (cache_branch-eq n e a) ∙ same ∙ cache_branch-eq n' e' a')) in
    let (ee, ea) = join_last 46 _ _ _ _ (quoted-no_dot a ha da) (quoted-no_dot a' ha' da') rest in
    (
      quoted_injective n n' hn hn' en,
      quoted_injective _ _ he he' ee,
      quoted_injective a a' ha ha' ea,
    )
