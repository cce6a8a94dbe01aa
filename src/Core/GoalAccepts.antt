-- ===== src/Core/GoalAccepts.antt =====
-- The parts of check_goal_solution put together: when it accepts the solver's answer.
use rpm_ostree.Prelude.{
  ◌≡◌, refl, sym, ap, ◌∙◌, Bool, true, false, ◌&&◌, Option, none, some, List, [], ◌∷◌, arith,
  is_some, Option-cases, inl, inr,
}
use rpm_ostree.Prelude.Text.{Text}
use rpm_ostree.Core.Goal.{
  Package, Update, Goal, str_ptrarray_contains, throw_package_list, get_pkgname_source,
  table_lookup, collect_removals, not_removed, replaced_pkg, Replacing, place_update, Collected,
  collected, no_match, asserted, collect_updates, check_updates, check_reinstalls, check_expected,
  check_removals, check_goal_solution,
}
use rpm_ostree.Core.GoalLaws.{
  all, is_empty, List-cases, has, named, is_expected_update, is_expected, is_solved, and_when,
  and_unless, is_clean, source-some, replaced-some, not_removed-empty, forbidden-empty, removed-has,
}

and_none : (a b c d : Bool) → b ≡ false → (a && ((b && c) && d)) ≡ false
and_none true b c d h = rw h refl
and_none false b c d h = refl

collect_updates-none :
    (sources : List (Text × List Text)) (pkg : Package) (old : List Package) (us : List Update)
    (r : Replacing)
    → replaced_pkg pkg.name old ≡ none
    → is_clean (collect_updates sources (record { pkg = pkg; old = old } ∷ us) r) ≡ false
unfolding collect_updates
collect_updates-none sources pkg [] us r e = refl
collect_updates-none sources pkg (p ∷ old) us r e = rw (is_clean, collect_updates, e) refl

collect_updates-some :
    (sources : List (Text × List Text)) (pkg : Package) (old : List Package) (us : List Update)
    (r : Replacing) (o : Package)
    → replaced_pkg pkg.name old ≡ some o
    → collect_updates sources (record { pkg = pkg; old = old } ∷ us) r
      ≡ collect_updates sources us (place_update (get_pkgname_source sources pkg.name) pkg o r)
unfolding collect_updates
collect_updates-some sources pkg [] us r o e = absurd (unfold replaced_pkg in ground (arith, e))
collect_updates-some sources pkg (p ∷ old) us r o e = rw (collect_updates, e) refl

place_update-empty :
    (source : Option Text) (pkg old : Package) (r : Replacing)
    → is_empty (place_update source pkg old r).forbidden ≡ (is_empty r.forbidden && is_some source)
unfolding place_update
place_update-empty none pkg old r = ground arith
place_update-empty (some s) pkg old r = ground arith

and_shift : (a b c d e : Bool) → c ≡ true → b ≡ e → ((a && b) && d) ≡ (a && ((c && e) && d))
and_shift true b c d e h k = rw (h, k) refl
and_shift false b c d e h k = refl

collect_updates-clean :
    (sources : List (Text × List Text)) (us : List Update) (r : Replacing)
    → is_clean (collect_updates sources us r)
      ≡ (is_empty r.forbidden && all (is_expected_update sources) us)
collect_updates-clean sources [] r = unfold collect_updates in ground arith
collect_updates-clean sources (u ∷ us) r = elim (Option-cases (replaced_pkg u.pkg.name u.old)) [
  | inl e ↦
      collect_updates-none sources u.pkg u.old us r e
      ∙ sym (
          and_none (is_empty r.forbidden) _ _ _
            (sym (replaced-some u.pkg.name u.old) ∙ ap is_some e))
  | inr (o, e) ↦
      ap is_clean (collect_updates-some sources u.pkg u.old us r o e)
      ∙ collect_updates-clean sources us
          (place_update (get_pkgname_source sources u.pkg.name) u.pkg o r)
      ∙ ap (λ b. b && all (is_expected_update sources) us)
          (place_update-empty (get_pkgname_source sources u.pkg.name) u.pkg o r)
      ∙ and_shift (is_empty r.forbidden) _ _ _ _
          (sym (replaced-some u.pkg.name u.old) ∙ ap is_some e) (source-some sources u.pkg.name)
]

check_updates-solved :
    (table : List (Text × Text)) (c : Collected) → is_solved (check_updates table c) ≡ is_clean c
unfolding check_updates is_solved
check_updates-solved table (no_match pkg) = refl
check_updates-solved table asserted = refl
check_updates-solved table (collected r) = ground arith

check_reinstalls-solved :
    (sources : List (Text × List Text)) (table : List (Text × Text)) (goal : Goal)
    → is_solved (check_reinstalls sources table goal)
      ≡ (is_empty goal.reinstalls && all (is_expected_update sources) goal.updates)
unfolding check_reinstalls is_solved
check_reinstalls-solved sources table goal = elim (List-cases goal.reinstalls) [
  | inl e ↦ rw e (
      check_updates-solved table
        (collect_updates sources goal.updates (record { to_replace = []; forbidden = [] }))
      ∙ collect_updates-clean sources goal.updates (record { to_replace = []; forbidden = [] }))
  | inr (p, (pkgs, e)) ↦ rw e refl
]

check_expected-solved :
    (removed : List Text) (sources : List (Text × List Text)) (table : List (Text × Text))
    (goal : Goal)
    → is_solved (check_expected removed sources table goal) ≡ (
        all (λ n. has n table) removed
        && (is_empty goal.reinstalls && all (is_expected_update sources) goal.updates))
unfolding check_expected is_solved throw_package_list
check_expected-solved removed sources table goal = elim (List-cases (not_removed table removed)) [
  | inl e ↦
      rw (is_solved, e) refl
      ∙ check_reinstalls-solved sources table goal
      ∙ and_when _ _ (sym (not_removed-empty table removed) ∙ ap is_empty e)
  | inr (p, (pkgs, e)) ↦
      rw (is_solved, e) refl
      ∙ and_unless _ _ (sym (not_removed-empty table removed) ∙ ap is_empty e)
]

check_removals-solved :
    (removed : List Text) (sources : List (Text × List Text))
    (found : List (Text × Text) × List Text) (goal : Goal)
    → is_solved (check_removals removed sources found goal)
      ≡ (is_empty found.1 && is_solved (check_expected removed sources found.0 goal))
unfolding check_removals is_solved throw_package_list
check_removals-solved removed sources (table, []) goal = refl
check_removals-solved removed sources (table, p ∷ pkgs) goal = refl

all-ap {ℓ} :
    {A : Type ℓ} (f g : A → Bool) (xs : List A) → ((x : A) → f x ≡ g x) → all f xs ≡ all g xs
all-ap f g [] h = refl
all-ap f g (x ∷ xs) h = rw (h x, all-ap f g xs h) refl

-- A second test that is another one where the first holds.
and_under : (a b c d : Bool) → (a ≡ true → b ≡ c) → (a && (b && d)) ≡ (a && (c && d))
and_under true b c d h = rw (h refl) refl
and_under false b c d h = refl

-- Where the failpoint lets it pass, check_goal_solution succeeds exactly when the solver's answer is
-- the expected one: it removes the packages that were asked for, all of them and no others,
-- reinstalls nothing, and replaces only what was asked for.
pub check_goal_solution-solved :
    (removed : List Text) (sources : List (Text × List Text)) (goal : Goal)
    → is_solved (check_goal_solution none removed sources goal) ≡ is_expected removed sources goal
unfolding check_goal_solution is_expected
check_goal_solution-solved removed sources goal =
    check_removals-solved removed sources found goal
    ∙ ap (λ b. b && is_solved (check_expected removed sources found.0 goal))
        (forbidden-empty removed goal.removals [] [])
    ∙ ap (λ b. asked && b) (check_expected-solved removed sources found.0 goal)
    ∙ and_under asked _ _ _ (λ h.
      all-ap (λ n. has n found.0) (λ n. named n goal.removals) removed
        (λ n. removed-has removed goal.removals [] [] n h ∙ unfold table_lookup in refl))
  where
    found : List (Text × Text) × List Text
    found = collect_removals removed goal.removals ([], [])

    asked : Bool
    asked = all (λ p. str_ptrarray_contains removed p.name) goal.removals
