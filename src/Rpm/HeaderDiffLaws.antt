-- ===== src/Rpm/HeaderDiffLaws.antt =====
-- That rpmhdrs_diff of src/libpriv/rpmostree-rpm-util.cxx lists each difference once.
use Prim.Native.Nat.{Ordering}
use rpm_ostree.Prelude.{
  ◌≡◌, refl, Option, none, some, List, [], ◌∷◌, arith, if◌then◌else◌, All, sym, subst, ◌∙◌,
  Bool-cases, inl, inr,
}
use rpm_ostree.Prelude.Text.{
  Ordering-cases, text_eq_sound, Text, strcmp, text_eq, text_eq_iff, strcmp_eq, strcmp_refl,
  strcmp_lt_trans, strcmp_gt,
}
use rpm_ostree.Rpm.HeaderDiff.{Header, HeadersDiff, is_eq, add_both, rpmhdrs_diff}

-- The header of a given name.
unfoldable pub find : Text → List Header → Option Header
find n [] = none
find n (h ∷ l) = if text_eq h.name n then some h else find n l

-- All headers of a given name.
unfoldable pub named : Text → List Header → List Header
named n [] = []
named n (h ∷ l) = if text_eq h.name n then h ∷ named n l else named n l

-- Sorted by name, each name once.
abbrev pub IsSorted : List Header → Type 0
IsSorted [] = Unit {0}
IsSorted (h ∷ l) = All (λ k. strcmp h.name k.name ≡ Ordering.lt) l × IsSorted l

abbrev pub only : Option Header → Option Header → List Header
only (some a) none = a ∷ []
only _ _ = []

-- The old or the new one of two headers of one name, if their versions differ.
abbrev pub changed :
    (Header → Header → Ordering)
    → (Header → Header → Header)
    → Option Header
    → Option Header
    → List Header
changed version_compare pick (some a) (some b) =
    if is_eq (version_compare a b) then [] else pick a b ∷ []
changed version_compare pick _ _ = []

find_absent :
    (n : Text) (l : List Header) → All (λ k. strcmp n k.name ≡ Ordering.lt) l → find n l ≡ none
unfolding find
find_absent n [] h = refl
find_absent n (k ∷ l) h = ground (arith, find_absent n l h.1, text_eq_iff k.name n, strcmp_refl n)

find_tail :
    (n : Text) (h : Header) (l : List Header)
    → h.name ≡ n
    → All (λ k. strcmp h.name k.name ≡ Ordering.lt) l
    → find n l ≡ none
find_tail n h l e a = find_absent n l (subst (λ m. All (λ k. strcmp m k.name ≡ Ordering.lt) l) e a)

All-trans :
    (n m : Text) (l : List Header)
    → strcmp n m ≡ Ordering.lt
    → All (λ k. strcmp m k.name ≡ Ordering.lt) l
    → All (λ k. strcmp n k.name ≡ Ordering.lt) l
All-trans n m [] h a = tt
All-trans n m (k ∷ l) h a = (strcmp_lt_trans n m k.name h a.0, All-trans n m l h a.1)

-- All that the difference `d` lists under the name `n`, of which the two sets have `o1` and `o2`.
pub record Tells (vc : Header → Header → Ordering) (n : Text) (d : HeadersDiff)
    (o1 o2 : Option Header) : Type 0 where
  pub deleted : named n d.hs_del ≡ only o1 o2
  pub added : named n d.hs_add ≡ only o2 o1
  pub old : named n d.hs_mod_old ≡ changed vc (λ a b. a) o1 o2
  pub new : named n d.hs_mod_new ≡ changed vc (λ a b. b) o1 o2

module _ (vc : Header → Header → Ordering) (n : Text) where
  Tells-lt :
      (h1 h2 : Header) (l1 l2 : List Header) (d : HeadersDiff)
      → strcmp h1.name h2.name ≡ Ordering.lt
      → IsSorted (h1 ∷ l1)
      → IsSorted (h2 ∷ l2)
      → Tells vc n d (find n l1) (find n (h2 ∷ l2))
      → Tells vc n (record d { hs_del = h1 ∷ d.hs_del }) (find n (h1 ∷ l1)) (find n (h2 ∷ l2))
  unfolding find named
  Tells-lt h1 h2 l1 l2 d lt s1 s2 ih = elim (Bool-cases (text_eq h1.name n)) [
    | inl p ↦
        let here : h1.name ≡ n = text_eq_sound h1.name n p in
        let gone = find_tail n h1 l1 here s1.0 in
        let none_later = find_tail n h1 (h2 ∷ l2) here (lt, All-trans h1.name h2.name l2 lt s2.0) in
        ground arith
    | inr p ↦ ground arith
  ]

  Tells-gt :
      (h1 h2 : Header) (l1 l2 : List Header) (d : HeadersDiff)
      → strcmp h2.name h1.name ≡ Ordering.lt
      → IsSorted (h1 ∷ l1)
      → IsSorted (h2 ∷ l2)
      → Tells vc n d (find n (h1 ∷ l1)) (find n l2)
      → Tells vc n (record d { hs_add = h2 ∷ d.hs_add }) (find n (h1 ∷ l1)) (find n (h2 ∷ l2))
  unfolding find named
  Tells-gt h1 h2 l1 l2 d lt s1 s2 ih = elim (Bool-cases (text_eq h2.name n)) [
    | inl p ↦
        let here : h2.name ≡ n = text_eq_sound h2.name n p in
        let gone = find_tail n h2 l2 here s2.0 in
        let none_later = find_tail n h2 (h1 ∷ l1) here (lt, All-trans h2.name h1.name l1 lt s1.0) in
        ground arith
    | inr p ↦ ground arith
  ]

  Tells-eq :
      (h1 h2 : Header) (l1 l2 : List Header) (d : HeadersDiff)
      → h1.name ≡ h2.name
      → IsSorted (h1 ∷ l1)
      → IsSorted (h2 ∷ l2)
      → Tells vc n d (find n l1) (find n l2)
      → Tells vc n (add_both vc h1 h2 d) (find n (h1 ∷ l1)) (find n (h2 ∷ l2))
  unfolding find named
  Tells-eq h1 h2 l1 l2 d e s1 s2 ih = elim (Bool-cases (text_eq h1.name n)) [
    | inl p ↦
        let here : h1.name ≡ n = text_eq_sound h1.name n p in
        let gone1 = find_tail n h1 l1 here s1.0 in
        let gone2 = find_tail n h2 l2 (sym e ∙ here) s2.0 in ground (arith, text_eq_iff h2.name n)
    | inr p ↦ ground (arith, text_eq_iff h1.name n, text_eq_iff h2.name n)
  ]

  add_rest :
      (h : Header) (l : List Header) (d : HeadersDiff)
      → IsSorted (h ∷ l)
      → Tells vc n d (find n []) (find n l)
      → Tells vc n (record d { hs_add = h ∷ d.hs_add }) (find n []) (find n (h ∷ l))
  unfolding find named
  add_rest h l d s ih = elim (Bool-cases (text_eq h.name n)) [
    | inl p ↦ let gone = find_tail n h l (text_eq_sound h.name n p) s.0 in ground arith
    | inr p ↦ ground arith
  ]

  del_rest :
      (h : Header) (l : List Header) (d : HeadersDiff)
      → IsSorted (h ∷ l)
      → Tells vc n d (find n l) (find n [])
      → Tells vc n (record d { hs_del = h ∷ d.hs_del }) (find n (h ∷ l)) (find n [])
  unfolding find named
  del_rest h l d s ih = elim (Bool-cases (text_eq h.name n)) [
    | inl p ↦ let gone = find_tail n h l (text_eq_sound h.name n p) s.0 in ground arith
    | inr p ↦ ground arith
  ]

  -- For sets sorted by name that hold each name once, the difference is exact: under each name, the
  -- deleted and the added headers are the one header of the set that alone has it, and none else; the old
  -- and the new ones are one header each where both sets have it in versions that compare as different,
  -- and none else.
  pub rpmhdrs_diff-Tells :
      (l1 l2 : List Header)
      → IsSorted l1
      → IsSorted l2
      → Tells vc n (rpmhdrs_diff vc l1 l2) (find n l1) (find n l2)
  unfolding rpmhdrs_diff
  rpmhdrs_diff-Tells [] [] s1 s2 =
      unfold find named in record { deleted = refl; added = refl; old = refl; new = refl }
  rpmhdrs_diff-Tells [] (h2 ∷ l2) s1 s2 = add_rest h2 l2 _ s2 (rpmhdrs_diff-Tells [] l2 s1 s2.1)
  rpmhdrs_diff-Tells (h1 ∷ l1) [] s1 s2 = del_rest h1 l1 _ s1 (rpmhdrs_diff-Tells l1 [] s1.1 s2)
  rpmhdrs_diff-Tells (h1 ∷ l1) (h2 ∷ l2) s1 s2 = elim (Ordering-cases (strcmp h1.name h2.name)) [
    | inl e ↦
        rw (e, rpmhdrs_diff)
          (Tells-lt h1 h2 l1 l2 _ e s1 s2 (rpmhdrs_diff-Tells l1 (h2 ∷ l2) s1.1 s2))
    | inr (inl e) ↦
        rw (e, rpmhdrs_diff)
          (Tells-eq h1 h2 l1 l2 _ (strcmp_eq _ _ e) s1 s2 (rpmhdrs_diff-Tells l1 l2 s1.1 s2.1))
    | inr (inr e) ↦
        rw (e, rpmhdrs_diff)
          (Tells-gt h1 h2 l1 l2 _ (strcmp_gt _ _ e) s1 s2 (rpmhdrs_diff-Tells (h1 ∷ l1) l2 s1 s2.1))
  ]
