-- ===== src/Core/Goal.antt =====
-- check_goal_solution of src/libpriv/rpmostree-core.cxx: whether the solver's answer removes and
-- replaces the base packages that were asked for, and no others. The solver's answer and the
-- failpoint are arguments; a hash table is the list of its entries, in the order GLib walks it.
use rpm_ostree.Prelude.{
  Bool, not, Option, none, some, List, [], ◌∷◌, ◌++◌, any, if◌then◌else◌, is_some,
}
use rpm_ostree.Prelude.Text.{Text, text_eq, codes}

-- A DnfPackage, by the parts of it that this function reads.
pub record Package : Type 0 where
  pub name : Text
  pub nevra : Text

-- An update or downgrade, with hy_goal_list_obsoleted_by_package.
pub record Update : Type 0 where
  pub pkg : Package
  pub old : List Package

-- dnf_goal_get_packages: removed and obsoleted, reinstalled, updated and downgraded.
pub record Goal : Type 0 where
  pub removals : List Package
  pub reinstalls : List Package
  pub updates : List Update

-- What the function returns: TRUE with pkgs_to_remove and pkgs_to_replace, FALSE with an error, or
-- no return after a failed assertion.
pub data Verdict : Type 0 where
  solved : List (Text × Text) → List (Text × List (Text × Text)) → Verdict
  thrown : Text → Verdict
  aborted : Verdict

-- rpmostree_str_ptrarray_contains
abbrev pub str_ptrarray_contains : List Text → Text → Bool
str_ptrarray_contains names name = any (λ n. text_eq n name) names

-- The names behind ", " that follow the first one in throw_package_list.
unfoldable pub join : List Text → Text
join [] = []
join (p ∷ pkgs) = codes ", " ++ p ++ join pkgs

-- throw_package_list, with the place for an error given
unfoldable pub throw_package_list : Text → List Text → Verdict
throw_package_list prefix [] = thrown (prefix ++ codes ": ")
throw_package_list prefix (p ∷ pkgs) = thrown (prefix ++ codes ": " ++ p ++ join pkgs)

-- get_pkgname_source
unfoldable pub get_pkgname_source : List (Text × List Text) → Text → Option Text
get_pkgname_source [] pkgname = none
get_pkgname_source ((source, pkgnames) ∷ rest) pkgname =
    let later = get_pkgname_source rest pkgname in
    if str_ptrarray_contains pkgnames pkgname then some source else later

-- g_hash_table_insert and g_hash_table_lookup, on string keys
unfoldable pub table_insert {ℓ} : {V : Type ℓ} → Text → V → List (Text × V) → List (Text × V)
table_insert k v [] = (k, v) ∷ []
table_insert k v ((j, u) ∷ rest) =
    let later = table_insert k v rest in if text_eq j k then (j, v) ∷ rest else (j, u) ∷ later

unfoldable pub table_lookup {ℓ} : {V : Type ℓ} → Text → List (Text × V) → Option V
table_lookup k [] = none
table_lookup k ((j, u) ∷ rest) =
    let later = table_lookup k rest in if text_eq j k then some u else later

-- The removed packages that were asked for, into pkgs_to_remove, and the forbidden others.
unfoldable pub collect_removals :
    List Text → List Package → List (Text × Text) × List Text → List (Text × Text) × List Text
collect_removals names [] (table, forbidden) = (table, forbidden)
collect_removals names (p ∷ pkgs) (table, forbidden) = collect_removals names pkgs (
    if str_ptrarray_contains names p.name
    then (table_insert p.name p.nevra table, forbidden)
    else (table, forbidden ++ p.nevra ∷ []))

-- The names that were asked for and are not in pkgs_to_remove.
unfoldable pub not_removed : List (Text × Text) → List Text → List Text
not_removed table [] = []
not_removed table (name ∷ names) =
    let rest = not_removed table names in
    if not (is_some (table_lookup name table)) then name ∷ rest else rest

-- replaced_pkg: the first obsoleted package of the same name
unfoldable pub replaced_pkg : Text → List Package → Option Package
replaced_pkg name [] = none
replaced_pkg name (p ∷ pkgs) =
    let later = replaced_pkg name pkgs in if text_eq p.name name then some p else later

-- The table of the replacements from one source, that of no replacement if there is none yet.
unfoldable pub replacements : Option (List (Text × Text)) → List (Text × Text)
replacements none = []
replacements (some table) = table

-- The state of the loop over the updates: pkgs_to_replace, and the forbidden replacements.
pub record Replacing : Type 0 where
  pub to_replace : List (Text × List (Text × Text))
  pub forbidden : List (Text × Text)

-- An update whose replaced package is known, by the source that it was asked from.
unfoldable pub place_update : Option Text → Package → Package → Replacing → Replacing
place_update (some source) pkg old r = record r {
  to_replace =
      table_insert source
        (table_insert pkg.nevra old.nevra (replacements (table_lookup source r.to_replace)))
        r.to_replace;
}
place_update none pkg old r = record r { forbidden = (old.nevra, pkg.nevra) ∷ r.forbidden }

-- The result of the loop over the updates.
pub data Collected : Type 0 where
  collected : Replacing → Collected
  no_match : Package → Collected
  asserted : Collected

unfoldable pub collect_updates : List (Text × List Text) → List Update → Replacing → Collected
collect_updates sources [] r = collected r
collect_updates sources (u ∷ us) r = elim u.old [
  | [] ↦ asserted
  | _ ∷ _ ↦ elim (replaced_pkg u.pkg.name u.old) [
    | none ↦ no_match u.pkg
    | some old ↦
        collect_updates sources us
          (place_update (get_pkgname_source sources u.pkg.name) u.pkg old r)
  ]
]

-- The names of the reinstalled packages, with a space before each but the first.
unfoldable pub spaced : List Package → Text
spaced [] = []
spaced (p ∷ pkgs) = 32 ∷ p.name ++ spaced pkgs

-- The last part of check_goal_solution: the updates and downgrades.
unfoldable pub check_updates : List (Text × Text) → Collected → Verdict
check_updates table (no_match pkg) =
    thrown (codes "Package " ++ pkg.nevra ++ codes " doesn't replace a package of the same name")
check_updates table asserted = aborted
check_updates table (collected r) = elim r.forbidden [
  | [] ↦ solved table r.to_replace
  | _ ∷ _ ↦ thrown (codes "Some base packages would be replaced")
]

-- The part from the reinstalled packages on.
unfoldable pub check_reinstalls : List (Text × List Text) → List (Text × Text) → Goal → Verdict
check_reinstalls sources table goal = elim goal.reinstalls [
  | [] ↦
      check_updates table
        (collect_updates sources goal.updates (record { to_replace = []; forbidden = [] }))
  | p ∷ pkgs ↦
      thrown (codes "Request to reinstall exact base package versions: " ++ p.name ++ spaced pkgs)
]

-- The part from the expected removals on.
unfoldable pub check_expected :
    List Text → List (Text × List Text) → List (Text × Text) → Goal → Verdict
check_expected removed sources table goal = elim (not_removed table removed) [
  | [] ↦ check_reinstalls sources table goal
  | p ∷ pkgs ↦ throw_package_list (codes "Base packages not marked to be removed") (p ∷ pkgs)
]

-- The part on the removed packages, which are `found`.
unfoldable pub check_removals :
    List Text → List (Text × List Text) → List (Text × Text) × List Text → Goal → Verdict
check_removals removed sources (table, []) goal = check_expected removed sources table goal
check_removals removed sources (table, p ∷ pkgs) goal =
    throw_package_list (codes "Base packages would be removed") (p ∷ pkgs)

-- check_goal_solution, with pkgs_to_remove and pkgs_to_replace not set; `failpoint` is the
-- exception of its failpoint.
unfoldable pub check_goal_solution :
    Option Text → List Text → List (Text × List Text) → Goal → Verdict
check_goal_solution (some what) removed sources goal = thrown what
check_goal_solution none removed sources goal =
    check_removals removed sources (collect_removals removed goal.removals ([], [])) goal
