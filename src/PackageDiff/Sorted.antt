-- ===== src/PackageDiff/Sorted.antt =====
-- For lists sorted by name and architecture, a package is reported as unique only if the other list
-- has none of its name and architecture; the order by version of rpm_ostree_package_cmp is not enough.
use Prim.Native.Nat.{Ordering}
use rpm_ostree.Prelude.{◌≡◌, ◌⊎◌, inl, inr, true, false, List, [], ◌∷◌, arith, All}
use rpm_ostree.Prelude.Text.{
  Text, strcmp, strcmp_eq, strcmp_refl, strcmp_gt, strcmp_lt_trans, text_eq_iff,
}
use rpm_ostree.PackageDiff.Defs.{
  Package, only_a, only_b, both_common, both_modified, next_round, next_pkg_has_different_name,
}
use rpm_ostree.PackageDiff.Partition.{is_named}

-- p comes before q, by name and then by architecture.
abbrev pub Before : Package → Package → Type 0
Before p q =
    (strcmp p.name q.name ≡ Ordering.lt)
    ⊎ ((p.name ≡ q.name) × (strcmp p.arch q.arch ≡ Ordering.lt))

abbrev pub IsSorted : List Package → Type 0
IsSorted [] = Unit {0}
IsSorted (p ∷ ps) = All (Before p) ps × IsSorted ps

-- p and q differ in name or architecture.
abbrev pub Differs : Package → Package → Type 0
Differs p q = is_named q.name q.arch p ≡ false

abbrev pub Absent : List Package → Package → Type 0
Absent l p = All (Differs p) l

pub Before-trans : (p q r : Package) → Before p q → Before q r → Before p r
Before-trans p q r h k =
    ground (arith, strcmp_lt_trans p.name q.name r.name, strcmp_lt_trans p.arch q.arch r.arch)

pub Before-Differs : (p q : Package) → Before p q → Differs p q
Before-Differs p q h = ground (
  arith,
  text_eq_iff p.name q.name,
  text_eq_iff p.arch q.arch,
  strcmp_refl p.name,
  strcmp_refl p.arch,
)

pub Differs-sym : (p q : Package) → Differs p q → Differs q p
Differs-sym p q h = ground (
  arith,
  text_eq_iff p.name q.name,
  text_eq_iff p.arch q.arch,
  text_eq_iff q.name p.name,
  text_eq_iff q.arch p.arch,
)

pub All-imp {ℓ} :
    {A : Type ℓ} (P Q : A → Type 0) (l : List A) → ((x : A) → P x → Q x) → All P l → All Q l
All-imp P Q [] h a = tt
All-imp P Q (x ∷ l) h a = (h x a.0, All-imp P Q l h a.1)

pub All-and {ℓ} :
    {A : Type ℓ} (P Q R : A → Type 0) (l : List A)
    → ((x : A) → P x → Q x → R x)
    → All P l
    → All Q l
    → All R l
All-and P Q R [] h a b = tt
All-and P Q R (x ∷ l) h a b = (h x a.0 b.0, All-and P Q R l h a.1 b.1)

-- After a package of its own name the others of the list have greater names.
later_names :
    (p : Package) (l : List Package)
    → next_pkg_has_different_name p.name l ≡ true
    → IsSorted (p ∷ l)
    → All (λ q. strcmp p.name q.name ≡ Ordering.lt) l
unfolding next_pkg_has_different_name
later_names p [] e s = tt
later_names p (q ∷ l) e s =
    let here : strcmp p.name q.name ≡ Ordering.lt =
      ground (arith, s.0.0, text_eq_iff p.name q.name) in
    (here, All-imp (Before q) (λ r. strcmp p.name r.name ≡ Ordering.lt) l (next here) s.1.0)
  where
    next :
        strcmp p.name q.name ≡ Ordering.lt
        → (r : Package) → Before q r
        → strcmp p.name r.name ≡ Ordering.lt
    next here r b = ground (arith, strcmp_lt_trans p.name q.name r.name)

module _ (evr_cmp : Text → Text → Ordering) where
  pub only_a-lem :
      (p q : Package) (a b : List Package) → next_round evr_cmp p q a b ≡ only_a → Before p q
  unfolding next_round
  only_a-lem p q a b e = ground (arith, e, strcmp_eq p.name q.name)

  pub only_b-lem :
      (p q : Package) (a b : List Package) → next_round evr_cmp p q a b ≡ only_b → Before q p
  unfolding next_round
  only_b-lem p q a b e =
      ground (arith, e, strcmp_eq p.name q.name, strcmp_gt p.name q.name, strcmp_gt p.arch q.arch)

  -- Both current packages are used up: they have one name and architecture, or are the last of one name.
  abbrev pub UsedUp : Package → Package → List Package → List Package → Type 0
  UsedUp p q a b =
      (p.name ≡ q.name)
      × ((p.arch ≡ q.arch)
          ⊎ ((next_pkg_has_different_name p.name a ≡ true)
              × (next_pkg_has_different_name q.name b ≡ true)))

  pub both-lem :
      (p q : Package) (a b : List Package)
      → (next_round evr_cmp p q a b ≡ both_common) ⊎ (next_round evr_cmp p q a b ≡ both_modified)
      → UsedUp p q a b
  unfolding next_round
  both-lem p q a b e = ground (arith, e, strcmp_eq p.name q.name, strcmp_eq p.arch q.arch)

  pub UsedUp-a :
      (p q : Package) (a b : List Package)
      → UsedUp p q a b
      → IsSorted (p ∷ a)
      → All (λ r. Differs r q) a
  UsedUp-a p q a b (n, inl x) s =
      All-imp (Before p) (λ r. Differs r q) a
        (λ r h. Differs-sym q r (Before-Differs q r (ground (arith, h, n, x)))) s.0
  UsedUp-a p q a b (n, inr (sa, sb)) s =
      All-imp (λ r. strcmp p.name r.name ≡ Ordering.lt) (λ r. Differs r q) a
        (λ r h. Differs-sym q r (Before-Differs q r (inl (ground (arith, h, n)))))
        (later_names p a sa s)
