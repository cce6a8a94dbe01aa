-- ===== src/PackageDiff/Partition.antt =====
-- Every package of the two lists is reported once, and a modified one with its counterpart.
use Prim.Native.Nat.{Ordering}
use rpm_ostree.Prelude.{
  ℕ, ◌+◌, ◌≡◌, ◌≢◌, refl, ◌⊎◌, inl, inr, Bool, List, [], ◌∷◌, arith, ◌&&◌, if◌then◌else◌,
}
use rpm_ostree.Prelude.Text.{Text, strcmp, strcmp_eq, text_eq}
use rpm_ostree.PackageDiff.Defs.{
  Package, Diff, Round, only_a, only_b, both_common, both_modified, next_round, put_round,
  diff_package_lists,
}

-- How many packages of the list pass the test.
abbrev pub count : (Package → Bool) → List Package → ℕ
count f [] = 0
count f (p ∷ ps) = (if f p then 1 else 0) + count f ps

abbrev pub is_named : Text → Text → Package → Bool
is_named name arch p = text_eq p.name name && text_eq p.arch arch

module _ (evr_cmp : Text → Text → Ordering) where
  -- A pair that is reported as modified: the same name, and another version or architecture.
  abbrev pub Changed : List Package → List Package → Type 0
  Changed [] [] = Unit {0}
  Changed [] (q ∷ qs) = ⊥
  Changed (p ∷ ps) [] = ⊥
  Changed (p ∷ ps) (q ∷ qs) =
      ((p.name ≡ q.name)
        × ((strcmp p.arch q.arch ≢ Ordering.eq) ⊎ (evr_cmp p.evr q.evr ≢ Ordering.eq)))
      × Changed ps qs

  -- The arrays divide the list `a`, under every test `f`, and the list `b`, by name and architecture,
  -- and the modified packages stand beside their counterparts.
  pub record IsPartition (f : Package → Bool) (name arch : Text) (a b : List Package) (d : Diff)
      : Type 0 where
    pub of_a : count f a ≡ count f d.unique_a + (count f d.modified_a + count f d.common)
    pub of_b :
        count (is_named name arch) b
        ≡ count (is_named name arch) d.unique_b
          + (count (is_named name arch) d.modified_b + count (is_named name arch) d.common)
    pub paired : Changed d.modified_a d.modified_b

  pub Round-cases :
      (r : Round) → (r ≡ only_a) ⊎ ((r ≡ only_b) ⊎ ((r ≡ both_common) ⊎ (r ≡ both_modified)))
  Round-cases only_a = inl refl
  Round-cases only_b = inr (inl refl)
  Round-cases both_common = inr (inr (inl refl))
  Round-cases both_modified = inr (inr (inr refl))

  modified-lem :
      (p q : Package) (a b : List Package)
      → next_round evr_cmp p q a b ≡ both_modified
      → (p.name ≡ q.name)
        × ((strcmp p.arch q.arch ≢ Ordering.eq) ⊎ (evr_cmp p.evr q.evr ≢ Ordering.eq))
  unfolding next_round
  modified-lem p q a b e = ground (arith, strcmp_eq p.name q.name, e)

  pub common-lem :
      (p q : Package) (a b : List Package)
      → next_round evr_cmp p q a b ≡ both_common
      → (p.name ≡ q.name) × (p.arch ≡ q.arch)
  unfolding next_round
  common-lem p q a b e = ground (arith, strcmp_eq p.name q.name, strcmp_eq p.arch q.arch, e)

  module _ (f : Package → Bool) (name arch : Text) where
    put_a :
        (p q : Package) (a b : List Package) (d : Diff)
        → IsPartition f name arch a (q ∷ b) d
        → IsPartition f name arch (p ∷ a) (q ∷ b) (put_round evr_cmp only_a p q d)
    put_a p q a b d v = ground (arith, v)

    put_b :
        (p q : Package) (a b : List Package) (d : Diff)
        → IsPartition f name arch (p ∷ a) b d
        → IsPartition f name arch (p ∷ a) (q ∷ b) (put_round evr_cmp only_b p q d)
    put_b p q a b d v = ground (arith, v)

    put_modified :
        (p q : Package) (a b : List Package) (d : Diff)
        → (p.name ≡ q.name)
          × ((strcmp p.arch q.arch ≢ Ordering.eq) ⊎ (evr_cmp p.evr q.evr ≢ Ordering.eq))
        → IsPartition f name arch a b d
        → IsPartition f name arch (p ∷ a) (q ∷ b) (put_round evr_cmp both_modified p q d)
    put_modified p q a b d c v = record {
      of_a = omega (arith, v.of_a);
      of_b = omega (arith, v.of_b);
      paired = (c, v.paired);
    }

    put_common :
        (p q : Package) (a b : List Package) (d : Diff)
        → p.name ≡ q.name
        → p.arch ≡ q.arch
        → IsPartition f name arch a b d
        → IsPartition f name arch (p ∷ a) (q ∷ b) (put_round evr_cmp both_common p q d)
    put_common p q a b d n x v = record {
      of_a = omega (arith, v.of_a);
      of_b = rw (n, x) (omega (arith, v.of_b));
      paired = v.paired;
    }

    -- Every package of `a` is in exactly one of unique_a, modified_a and common, as
    -- often as in `a`, and under each name and architecture as many packages of `b` are in unique_b,
    -- modified_b and, by their counterparts, in common; modified_a and modified_b have the same
    -- length, and side by side the same names, with another architecture or version.
    pub diff_package_lists-IsPartition :
        (a b : List Package) → IsPartition f name arch a b (diff_package_lists evr_cmp a b)
    unfolding diff_package_lists
    diff_package_lists-IsPartition [] [] = record { of_a = refl; of_b = refl; paired = tt }
    diff_package_lists-IsPartition [] (q ∷ b) =
        let v = diff_package_lists-IsPartition [] b in
        record { of_a = v.of_a; of_b = omega (arith, v.of_b); paired = v.paired }
    diff_package_lists-IsPartition (p ∷ a) [] =
        let v = diff_package_lists-IsPartition a [] in
        record { of_a = omega (arith, v.of_a); of_b = v.of_b; paired = v.paired }
    diff_package_lists-IsPartition (p ∷ a) (q ∷ b) =
        elim (Round-cases (next_round evr_cmp p q a b)) [
          | inl e ↦
              rw (e, diff_package_lists)
                (put_a p q a b _ (diff_package_lists-IsPartition a (q ∷ b)))
          | inr (inl e) ↦
              rw (e, diff_package_lists)
                (put_b p q a b _ (diff_package_lists-IsPartition (p ∷ a) b))
          | inr (inr (inl e)) ↦
              let same = common-lem p q a b e in
              rw (e, diff_package_lists)
                (put_common p q a b _ same.0 same.1 (diff_package_lists-IsPartition a b))
          | inr (inr (inr e)) ↦
              rw (e, diff_package_lists)
                (put_modified p q a b _ (modified-lem p q a b e)
                  (diff_package_lists-IsPartition a b))
        ]
