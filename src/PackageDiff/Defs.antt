-- ===== src/PackageDiff/Defs.antt =====
-- _rpm_ostree_diff_package_lists of src/lib/rpmostree-package.c. rpmverCmp of librpm is a parameter;
-- an array from its current index on is the list of the packages that are left.
use Prim.Native.Nat.{Ordering}
use rpm_ostree.Prelude.{Bool, true, not, ◌&&◌, List, [], ◌∷◌, if◌then◌else◌}
use rpm_ostree.Prelude.Text.{Text, strcmp, text_eq}

-- struct RpmOstreePackage
pub record Package : Type 0 where
  pub name : Text
  pub evr : Text
  pub arch : Text

-- next_pkg_has_different_name, with the packages behind the current one
unfoldable pub next_pkg_has_different_name : Text → List Package → Bool
next_pkg_has_different_name name [] = true
next_pkg_has_different_name name (p ∷ ps) = not (text_eq name p.name)

-- The five arrays.
pub record Diff : Type 0 where
  pub unique_a : List Package
  pub unique_b : List Package
  pub modified_a : List Package
  pub modified_b : List Package
  pub common : List Package

abbrev pub no_diff : Diff
no_diff = record { unique_a = []; unique_b = []; modified_a = []; modified_b = []; common = [] }

-- What one round of the loop does with the two current packages.
pub data Round : Type 0 where
  only_a only_b both_common both_modified : Round

abbrev pub by_version : Ordering → Round
by_version Ordering.eq = both_common
by_version Ordering.lt = both_modified
by_version Ordering.gt = both_modified

module _ (evr_cmp : Text → Text → Ordering) where
  unfoldable pub next_round : Package → Package → List Package → List Package → Round
  next_round pkg_a pkg_b rest_a rest_b = elim (strcmp pkg_a.name pkg_b.name) [
    | Ordering.lt ↦ only_a
    | Ordering.gt ↦ only_b
    | Ordering.eq ↦
        let single =
          next_pkg_has_different_name pkg_a.name rest_a
          && next_pkg_has_different_name pkg_b.name rest_b in
        elim (strcmp pkg_a.arch pkg_b.arch) [
          | Ordering.eq ↦ by_version (evr_cmp pkg_a.evr pkg_b.evr)
          | Ordering.lt ↦ if single then both_modified else only_a
          | Ordering.gt ↦ if single then both_modified else only_b
        ]
  ]

  abbrev pub put_round : Round → Package → Package → Diff → Diff
  put_round only_a p q d = record d { unique_a = p ∷ d.unique_a }
  put_round only_b p q d = record d { unique_b = q ∷ d.unique_b }
  put_round both_common p q d = record d { common = p ∷ d.common }
  put_round both_modified p q d = record d {
    modified_a = p ∷ d.modified_a;
    modified_b = q ∷ d.modified_b;
  }

  -- _rpm_ostree_diff_package_lists: the loop, and the two that flush what remains.
  unfoldable pub diff_package_lists : List Package → List Package → Diff
  diff_package_lists [] [] = no_diff
  diff_package_lists [] (q ∷ b) =
      let d = diff_package_lists [] b in record d { unique_b = q ∷ d.unique_b }
  diff_package_lists (p ∷ a) [] =
      let d = diff_package_lists a [] in record d { unique_a = p ∷ d.unique_a }
  diff_package_lists (p ∷ a) (q ∷ b) = elim (next_round p q a b) [
    | only_a ↦ put_round only_a p q (diff_package_lists a (q ∷ b))
    | only_b ↦ put_round only_b p q (diff_package_lists (p ∷ a) b)
    | both_common ↦ put_round both_common p q (diff_package_lists a b)
    | both_modified ↦ put_round both_modified p q (diff_package_lists a b)
  ]
