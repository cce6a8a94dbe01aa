-- ===== src/PackageDiff/Exact.antt =====
-- What is reported as unique, for sorted lists, and for lists that are sorted otherwise.
use Prim.Native.Nat.{Ordering}
use rpm_ostree.Prelude.{◌≡◌, sym, inl, inr, List, [], ◌∷◌, arith, All}
use rpm_ostree.Prelude.Text.{Text, strcmp, strcmp_refl, text_eq_refl}
use rpm_ostree.PackageDiff.Defs.{
  Package, Diff, only_a, only_b, next_round, put_round, next_pkg_has_different_name,
  diff_package_lists,
}
use rpm_ostree.PackageDiff.Partition.{Round-cases}
use rpm_ostree.PackageDiff.Sorted.{
  Before, IsSorted, Differs, Absent, Before-trans, Before-Differs, Differs-sym, All-imp, All-and,
  only_a-lem, only_b-lem, both-lem, UsedUp, UsedUp-a,
}

module _ (evr_cmp : Text → Text → Ordering) where
  from_a :
      (P : Package → Type 0) (a b : List Package)
      → All P a
      → All P (diff_package_lists evr_cmp a b).unique_a
  unfolding diff_package_lists
  from_a P [] [] h = tt
  from_a P [] (q ∷ b) h = from_a P [] b h
  from_a P (p ∷ a) [] h = (h.0, from_a P a [] h.1)
  from_a P (p ∷ a) (q ∷ b) h = elim (Round-cases evr_cmp (next_round evr_cmp p q a b)) [
    | inl e ↦ rw (e, diff_package_lists) (h.0, from_a P a (q ∷ b) h.1)
    | inr (inl e) ↦ rw (e, diff_package_lists) (from_a P (p ∷ a) b h)
    | inr (inr (inl e)) ↦ rw (e, diff_package_lists) (from_a P a b h.1)
    | inr (inr (inr e)) ↦ rw (e, diff_package_lists) (from_a P a b h.1)
  ]

  from_b :
      (P : Package → Type 0) (a b : List Package)
      → All P b
      → All P (diff_package_lists evr_cmp a b).unique_b
  unfolding diff_package_lists
  from_b P [] [] h = tt
  from_b P [] (q ∷ b) h = (h.0, from_b P [] b h.1)
  from_b P (p ∷ a) [] h = from_b P a [] h
  from_b P (p ∷ a) (q ∷ b) h = elim (Round-cases evr_cmp (next_round evr_cmp p q a b)) [
    | inl e ↦ rw (e, diff_package_lists) (from_b P a (q ∷ b) h)
    | inr (inl e) ↦ rw (e, diff_package_lists) (h.0, from_b P (p ∷ a) b h.1)
    | inr (inr (inl e)) ↦ rw (e, diff_package_lists) (from_b P a b h.1)
    | inr (inr (inr e)) ↦ rw (e, diff_package_lists) (from_b P a b h.1)
  ]

  -- What is reported as unique to one list is absent from the other, by name and architecture.
  pub record IsExact (a b : List Package) (d : Diff) : Type 0 where
    pub absent_b : All (Absent b) d.unique_a
    pub absent_a : All (Absent a) d.unique_b

  Absent-cons :
      (q : Package) (l xs : List Package)
      → All (λ x. Differs x q) xs
      → All (Absent l) xs
      → All (Absent (q ∷ l)) xs
  Absent-cons q l xs h k =
      All-and (λ x. Differs x q) (Absent l) (Absent (q ∷ l)) xs (λ x d a. (d, a)) h k

  Before-All : (p q : Package) (l : List Package) → Before p q → All (Before q) l → All (Before p) l
  Before-All p q l h a = All-imp (Before q) (Before p) l (λ r k. Before-trans p q r h k) a

  Differs-after : (p : Package) (l : List Package) → All (Before p) l → All (λ x. Differs x p) l
  Differs-after p l a =
      All-imp (Before p) (λ x. Differs x p) l (λ r h. Differs-sym p r (Before-Differs p r h)) a

  Absent-after : (p : Package) (l : List Package) → All (Before p) l → Absent l p
  Absent-after p l a = All-imp (Before p) (Differs p) l (λ r h. Before-Differs p r h) a

  put_a :
      (p q : Package) (a b : List Package)
      → Before p q
      → IsSorted (p ∷ a)
      → IsSorted (q ∷ b)
      → IsExact a (q ∷ b) (diff_package_lists evr_cmp a (q ∷ b))
      → IsExact
          (p ∷ a)
          (q ∷ b)
          (put_round evr_cmp only_a p q (diff_package_lists evr_cmp a (q ∷ b)))
  put_a p q a b h sa sb v =
      let after : All (Before p) (q ∷ b) = (h, Before-All p q b h sb.0) in
      record {
        absent_b = (Absent-after p (q ∷ b) after, v.absent_b);
        absent_a =
            Absent-cons p a (diff_package_lists evr_cmp a (q ∷ b)).unique_b
              (from_b (λ x. Differs x p) a (q ∷ b) (Differs-after p (q ∷ b) after)) v.absent_a;
      }

  put_b :
      (p q : Package) (a b : List Package)
      → Before q p
      → IsSorted (p ∷ a)
      → IsSorted (q ∷ b)
      → IsExact (p ∷ a) b (diff_package_lists evr_cmp (p ∷ a) b)
      → IsExact
          (p ∷ a)
          (q ∷ b)
          (put_round evr_cmp only_b p q (diff_package_lists evr_cmp (p ∷ a) b))
  put_b p q a b h sa sb v =
      let after : All (Before q) (p ∷ a) = (h, Before-All q p a h sa.0) in
      record {
        absent_a = (Absent-after q (p ∷ a) after, v.absent_a);
        absent_b =
            Absent-cons q b (diff_package_lists evr_cmp (p ∷ a) b).unique_a
              (from_a (λ x. Differs x q) (p ∷ a) b (Differs-after q (p ∷ a) after)) v.absent_b;
      }

  UsedUp-sym :
      (p q : Package) (a b : List Package) → UsedUp evr_cmp p q a b → UsedUp evr_cmp q p b a
  UsedUp-sym p q a b (n, inl x) = (sym n, inl (sym x))
  UsedUp-sym p q a b (n, inr (sa, sb)) = (sym n, inr (sb, sa))

  put_both :
      (p q : Package) (a b : List Package)
      → UsedUp evr_cmp p q a b
      → IsSorted (p ∷ a)
      → IsSorted (q ∷ b)
      → IsExact a b (diff_package_lists evr_cmp a b)
      → IsExact (p ∷ a) (q ∷ b) (diff_package_lists evr_cmp a b)
  put_both p q a b u sa sb v = record {
    absent_b =
        Absent-cons q b (diff_package_lists evr_cmp a b).unique_a
          (from_a (λ x. Differs x q) a b (UsedUp-a evr_cmp p q a b u sa)) v.absent_b;
    absent_a =
        Absent-cons p a (diff_package_lists evr_cmp a b).unique_b
          (from_b (λ x. Differs x p) a b (UsedUp-a evr_cmp q p b a (UsedUp-sym p q a b u) sb))
          v.absent_a;
  }

  nothing : (l : List Package) → All (Absent []) l
  nothing [] = tt
  nothing (p ∷ l) = (tt, nothing l)

  -- For lists that are sorted by name and then by architecture, with each pair of them once, a package is
  -- reported as unique to one list only if the other one has no package of its name and
  -- architecture.
  pub diff_package_lists-IsExact :
      (a b : List Package) → IsSorted a → IsSorted b → IsExact a b (diff_package_lists evr_cmp a b)
  unfolding diff_package_lists
  diff_package_lists-IsExact [] b sa sb = record {
    absent_b = from_a (Absent b) [] b tt;
    absent_a = from_b (Absent []) [] b (nothing b);
  }
  diff_package_lists-IsExact (p ∷ a) [] sa sb = record {
    absent_b = from_a (Absent []) (p ∷ a) [] (nothing (p ∷ a));
    absent_a = from_b (Absent (p ∷ a)) (p ∷ a) [] tt;
  }
  diff_package_lists-IsExact (p ∷ a) (q ∷ b) sa sb =
      elim (Round-cases evr_cmp (next_round evr_cmp p q a b)) [
        | inl e ↦
            rw (e, diff_package_lists)
              (put_a p q a b (only_a-lem evr_cmp p q a b e) sa sb
                (diff_package_lists-IsExact a (q ∷ b) sa.1 sb))
        | inr (inl e) ↦
            rw (e, diff_package_lists)
              (put_b p q a b (only_b-lem evr_cmp p q a b e) sa sb
                (diff_package_lists-IsExact (p ∷ a) b sa sb.1))
        | inr (inr (inl e)) ↦
            let v =
              put_both p q a b (both-lem evr_cmp p q a b (inl e)) sa sb
                (diff_package_lists-IsExact a b sa.1 sb.1) in
            rw (e, diff_package_lists) (record { absent_b = v.absent_b; absent_a = v.absent_a })
        | inr (inr (inr e)) ↦
            let v =
              put_both p q a b (both-lem evr_cmp p q a b (inr e)) sa sb
                (diff_package_lists-IsExact a b sa.1 sb.1) in
            rw (e, diff_package_lists) (record { absent_b = v.absent_b; absent_a = v.absent_a })
      ]

-- Two packages of one name, the first of an earlier architecture.
abbrev two : Text → Text → Text → Text → Text → List Package
two name e x e' x' =
    record { name = name; evr = e; arch = x } ∷ record { name = name; evr = e'; arch = x' } ∷ []

-- An update of the architecture that comes first, of two, is reported as a removal and an addition, not
-- as a modification, where the lists are sorted by version before architecture, as
-- rpm_ostree_package_cmp and dnf_package_cmp sort them: the other architecture then comes first
-- in the new list.
split_update :
    (evr_cmp : Text → Text → Ordering) (name x x' old new : Text)
    → strcmp x x' ≡ Ordering.lt
    → evr_cmp old old ≡ Ordering.eq
    → diff_package_lists evr_cmp (two name old x old x') (two name old x' new x) ≡ record {
      unique_a = record { name = name; evr = old; arch = x } ∷ [];
      unique_b = record { name = name; evr = new; arch = x } ∷ [];
      modified_a = [];
      modified_b = [];
      common = record { name = name; evr = old; arch = x' } ∷ [];
    }
unfolding diff_package_lists next_round next_pkg_has_different_name
split_update evr_cmp name x x' old new h e =
    ground (arith, strcmp_refl name, strcmp_refl x', text_eq_refl name, h, e)
