-- ===== src/Core/GoalLaws.antt =====
-- The parts of check_goal_solution, each against what it looks for in the answer of the solver.
use rpm_ostree.Prelude.{
  ◌≡◌, refl, ap, ◌∙◌, Bool, true, false, ◌&&◌, ◌||◌, List, [], ◌∷◌, ◌++◌, any, arith, if_true,
  if_false, is_some, Bool-cases, ◌⊎◌, inl, inr,
}
use rpm_ostree.Prelude.Text.{Text, text_eq, text_eq_iff}
use rpm_ostree.Core.Goal.{
  Package, Update, Goal, Verdict, solved, thrown, aborted, str_ptrarray_contains,
  get_pkgname_source, table_insert, table_lookup, collect_removals, not_removed, replaced_pkg,
  Collected, collected, no_match, asserted,
}

abbrev pub all {ℓ} : {A : Type ℓ} → (A → Bool) → List A → Bool
all p [] = true
all p (x ∷ xs) = p x && all p xs

abbrev pub is_empty {ℓ} : {A : Type ℓ} → List A → Bool
is_empty [] = true
is_empty (x ∷ xs) = false

pub List-cases {ℓ} :
    {A : Type ℓ} (xs : List A) → (xs ≡ []) ⊎ ((x : A) × ((ys : List A) × (xs ≡ x ∷ ys)))
List-cases [] = inl refl
List-cases (x ∷ xs) = inr (x, (xs, refl))

abbrev pub has {ℓ} : {V : Type ℓ} → Text → List (Text × V) → Bool
has k table = is_some (table_lookup k table)

-- Some package of the list has this name.
abbrev pub named : Text → List Package → Bool
named name pkgs = any (λ p. text_eq p.name name) pkgs

-- The update replaces a package of its own name, and a source asked for that name.
abbrev pub is_expected_update : List (Text × List Text) → Update → Bool
is_expected_update sources u =
    named u.pkg.name u.old && any (λ s. str_ptrarray_contains s.1 u.pkg.name) sources

-- The answer removes the packages that were asked for, all of them and no others, reinstalls
-- nothing, and replaces only what was asked for.
unfoldable pub is_expected : List Text → List (Text × List Text) → Goal → Bool
is_expected removed sources goal =
    all (λ p. str_ptrarray_contains removed p.name) goal.removals
    && (all (λ name. named name goal.removals) removed
        && (is_empty goal.reinstalls && all (is_expected_update sources) goal.updates))

unfoldable pub is_solved : Verdict → Bool
is_solved (solved to_remove to_replace) = true
is_solved (thrown e) = false
is_solved aborted = false

pub and_true : (b c d : Bool) → c ≡ true → (b && d) ≡ (b && (c && d))
and_true b c d e = rw e refl

pub and_false : (a b c d : Bool) → a ≡ false → c ≡ false → (a && d) ≡ (b && (c && d))
and_false a true c d h e = rw (h, e) refl
and_false a false c d h e = rw h refl

pub and_left : (b c : Bool) → (b && c) ≡ true → b ≡ true
and_left true c h = refl
and_left false c h = h

pub and_right : (b c : Bool) → (b && c) ≡ true → c ≡ true
and_right true c h = h
and_right false c h = cc

pub or_swap : (a b c : Bool) → ((a || b) || c) ≡ (b || (a || c))
or_swap true true c = refl
or_swap true false c = refl
or_swap false b c = refl

pub and_when : (b c : Bool) → b ≡ true → c ≡ (b && c)
and_when b c h = rw h refl

pub and_unless : (b c : Bool) → b ≡ false → false ≡ (b && c)
and_unless b c h = rw h refl

-- A collected state without forbidden replacements.
abbrev pub is_clean : Collected → Bool
is_clean (collected r) = is_empty r.forbidden
is_clean (no_match pkg) = false
is_clean asserted = false

pub has-insert {ℓ} :
    {V : Type ℓ} (k n : Text) (v : V) (table : List (Text × V))
    → has k (table_insert n v table) ≡ (text_eq n k || has k table)
unfolding table_insert table_lookup
has-insert k n v [] = ground arith
has-insert k n v ((j, u) ∷ rest) =
    ground (arith, has-insert k n v rest, text_eq_iff j n, text_eq_iff j k, text_eq_iff n k)

pub source-some :
    (sources : List (Text × List Text)) (name : Text)
    → is_some (get_pkgname_source sources name) ≡ any (λ s. str_ptrarray_contains s.1 name) sources
unfolding get_pkgname_source
source-some [] name = refl
source-some ((s, names) ∷ rest) name = ground (arith, source-some rest name)

pub replaced-some :
    (name : Text) (old : List Package) → is_some (replaced_pkg name old) ≡ named name old
unfolding replaced_pkg
replaced-some name [] = refl
replaced-some name (p ∷ old) = ground (arith, replaced-some name old)

pub not_removed-empty :
    (table : List (Text × Text)) (names : List Text)
    → is_empty (not_removed table names) ≡ all (λ n. has n table) names
unfolding not_removed
not_removed-empty table [] = refl
not_removed-empty table (n ∷ names) = ground (arith, not_removed-empty table names)

pub is_empty-append {ℓ} : {A : Type ℓ} (xs : List A) (y : A) → is_empty (xs ++ y ∷ []) ≡ false
is_empty-append [] y = refl
is_empty-append (x ∷ xs) y = refl

pub collect_removals-expected :
    (names : List Text) (p : Package) (pkgs : List Package) (table : List (Text × Text))
    (forbidden : List Text)
    → str_ptrarray_contains names p.name ≡ true
    → collect_removals names (p ∷ pkgs) (table, forbidden)
      ≡ collect_removals names pkgs (table_insert p.name p.nevra table, forbidden)
unfolding collect_removals
collect_removals-expected names p pkgs table forbidden e =
    ap (collect_removals names pkgs) (if_true (str_ptrarray_contains names p.name) _ _ e)

pub collect_removals-forbidden :
    (names : List Text) (p : Package) (pkgs : List Package) (table : List (Text × Text))
    (forbidden : List Text)
    → str_ptrarray_contains names p.name ≡ false
    → collect_removals names (p ∷ pkgs) (table, forbidden)
      ≡ collect_removals names pkgs (table, forbidden ++ p.nevra ∷ [])
unfolding collect_removals
collect_removals-forbidden names p pkgs table forbidden e =
    ap (collect_removals names pkgs) (if_false (str_ptrarray_contains names p.name) _ _ e)

pub forbidden-empty :
    (names : List Text) (pkgs : List Package) (table : List (Text × Text)) (forbidden : List Text)
    → is_empty (collect_removals names pkgs (table, forbidden)).1
      ≡ (is_empty forbidden && all (λ p. str_ptrarray_contains names p.name) pkgs)
unfolding collect_removals
forbidden-empty names [] table forbidden = ground arith
forbidden-empty names (p ∷ pkgs) table forbidden =
    elim (Bool-cases (str_ptrarray_contains names p.name)) [
      | inl e ↦
          ap (λ c. is_empty c.1) (collect_removals-expected names p pkgs table forbidden e)
          ∙ forbidden-empty names pkgs (table_insert p.name p.nevra table) forbidden
          ∙ and_true _ _ _ e
      | inr e ↦
          ap (λ c. is_empty c.1) (collect_removals-forbidden names p pkgs table forbidden e)
          ∙ forbidden-empty names pkgs table (forbidden ++ p.nevra ∷ [])
          ∙ and_false _ _ _ _ (is_empty-append forbidden p.nevra) e
    ]

pub removed-has :
    (names : List Text) (pkgs : List Package) (table : List (Text × Text)) (forbidden : List Text)
    (k : Text)
    → all (λ p. str_ptrarray_contains names p.name) pkgs ≡ true
    → has k (collect_removals names pkgs (table, forbidden)).0 ≡ (has k table || named k pkgs)
unfolding collect_removals
removed-has names [] table forbidden k h = ground arith
removed-has names (p ∷ pkgs) table forbidden k h =
    elim (Bool-cases (str_ptrarray_contains names p.name)) [
      | inl e ↦
          ap (λ c. has k c.0) (collect_removals-expected names p pkgs table forbidden e)
          ∙ removed-has names pkgs (table_insert p.name p.nevra table) forbidden k (and_right _ _ h)
          ∙ ap (λ b. b || named k pkgs) (has-insert k p.name p.nevra table)
          ∙ or_swap (text_eq p.name k) (has k table) (named k pkgs)
      | inr e ↦ absurd (
          ground (
            arith,
            and_left (str_ptrarray_contains names p.name)
                (all (λ q. str_ptrarray_contains names q.name) pkgs) h,
          ))
    ]
