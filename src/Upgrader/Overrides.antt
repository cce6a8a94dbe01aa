-- ===== src/Upgrader/Overrides.antt =====
-- The overrides that the base makes inactive: finalize_removal_overrides, finalize_replacement_overrides
-- and finalize_overrides of src/daemon/rpmostree-sysroot-upgrader.cxx. The functions of the Rust code on
-- the treefile and those of libdnf on the base's packages are parameters.
use rpm_ostree.Prelude.{Bool, not, ◌||◌, List, [], ◌∷◌, ◌++◌, if◌then◌else◌}
use rpm_ostree.Prelude.Text.{Text}
use rpm_ostree.Prelude.Result.{Result, ok, bind}
use rpm_ostree.Deploy.Overrides.{NevraApi, recorded_names}

-- The functions on the origin's overrides; each remote replacement is its packages.
pub record OverrideApi (O : Type 0) : Type 0 where
  pub nevra_api : NevraApi
  pub get_overrides_remove : O → List Text
  pub get_overrides_local_replace : O → List Text
  pub get_overrides_replace : O → List (List Text)
  pub remove_override_remove : O → Text → O
  pub remove_override_replace_local : O → Text → O
  pub remove_override_replace : O → Text → O

-- What is asked of the base's packages: whether a name has a package, which can fail, and whether there is
-- a match of a nevra or a name.
pub record BaseSack : Type 0 where
  pub get_by_pkgname : Text → Result Bool
  pub has_subject : Text → Bool
  pub has_pkgname : Text → Bool

module _ (sack : BaseSack) where
  unfoldable pub inactive_removals : List Text → Result (List Text)
  inactive_removals [] = ok []
  inactive_removals (name ∷ names) =
      bind (sack.get_by_pkgname name)
        (λ found. bind (inactive_removals names) (λ rest. ok (if found then rest else name ∷ rest)))

  -- The first loop of finalize_replacement_overrides.
  unfoldable pub inactive_local : NevraApi → List Text → Result (List Text)
  inactive_local nevra_api [] = ok []
  inactive_local nevra_api (text ∷ texts) = bind (recorded_names nevra_api text) (λ p.
      bind (sack.get_by_pkgname p.1) (λ found.
        bind (inactive_local nevra_api texts)
          (λ rest. ok (if not found || sack.has_subject p.0 then p.0 ∷ rest else rest))))

  unfoldable pub missing_names : List Text → List Text
  missing_names [] = []
  missing_names (name ∷ names) =
      let rest = missing_names names in if sack.has_pkgname name then rest else name ∷ rest

  -- The second loop of finalize_replacement_overrides.
  unfoldable pub inactive_remote : List (List Text) → List Text
  inactive_remote [] = []
  inactive_remote (names ∷ overrides) = missing_names names ++ inactive_remote overrides

  module _ {O : Type 0} (api : OverrideApi O) where
    unfoldable pub drop_removals : List Text → O → O
    drop_removals [] origin = origin
    drop_removals (name ∷ names) origin =
        drop_removals names (api.remove_override_remove origin name)

    unfoldable pub drop_replacements : List Text → O → O
    drop_replacements [] origin = origin
    drop_replacements (item ∷ items) origin =
        drop_replacements items
          (api.remove_override_replace (api.remove_override_replace_local origin item) item)

    unfoldable pub finalize_removal_overrides : O → Result O
    finalize_removal_overrides origin =
        bind (inactive_removals (api.get_overrides_remove origin))
          (λ names. ok (drop_removals names origin))

    unfoldable pub finalize_replacement_overrides : O → Result O
    finalize_replacement_overrides origin =
        bind (inactive_local api.nevra_api (api.get_overrides_local_replace origin)) (λ items.
          ok (
            drop_replacements (items ++ inactive_remote (api.get_overrides_replace origin)) origin))

    unfoldable pub finalize_overrides : O → Result O
    finalize_overrides origin =
        bind (finalize_removal_overrides origin) finalize_replacement_overrides
