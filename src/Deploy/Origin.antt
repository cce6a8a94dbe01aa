-- ===== src/Deploy/Origin.antt =====
-- The origin of a deployment: src/libpriv/rpmostree-origin.cxx. The functions of the Rust code on the
-- treefile that it wraps are parameters.
use rpm_ostree.Prelude.{Bool, ◌||◌, Option, none, some, List, [], ◌∷◌}
use rpm_ostree.Prelude.Text.{Text}
use rpm_ostree.Prelude.Result.{Result, ok, bind}
use rpm_ostree.Deploy.Refspec.{Refspec, OriginEdit, rebase, override_commit}

-- The functions on a Treefile; a setter answers with the new state and whether it has changed.
pub record TreefileApi (O : Type 0) : Type 0 where
  pub get_base_refspec : O → Refspec
  pub get_origin_custom_description : O → Text
  pub has_packages : O → Bool
  pub get_packages_override_replace_local : O → List Text
  pub get_initramfs_regenerate : O → Bool
  pub has_initramfs_etc_files : O → Bool
  pub initramfs_etc_files_untrack_all : O → O × Bool
  pub set_initramfs_regenerate : O → Bool → List Text → O
  pub set_override_commit : O → Text → O
  pub set_cliwrap : O → Bool → O
  pub rebase_treefile : O → Text → Text → Text → O
  pub add_packages : O → List Text → Bool → Result (O × Bool)
  pub add_local_packages : O → List Text → Bool → Result (O × Bool)
  pub add_local_fileoverride_packages : O → List Text → Bool → Result (O × Bool)
  pub remove_packages : O → List Text → Bool → Result (O × Bool)
  pub remove_all_packages : O → O × Bool
  pub add_packages_override_remove : O → List Text → Result O
  pub add_packages_override_replace_local : O → List Text → Result O
  pub remove_package_override_remove : O → Text → O × Bool
  pub remove_package_override_replace_local : O → Text → O × Bool
  pub remove_package_override_replace : O → Text → O × Bool
  pub remove_all_overrides : O → O × Bool
  pub merge_treefile : O → Text → Result (O × Bool)

-- checksum ?: ""
abbrev pub or_empty : Option Text → Text
or_empty none = []
or_empty (some text) = text

-- *out = *out || c
unfoldable pub set_changed : Bool → Bool → Bool
set_changed out c = out || c

-- A setter of the origin with an `out_changed`.
abbrev pub with_changed : {O : Type 0} → Bool → Result (O × Bool) → Result (O × Bool)
with_changed out r = bind r (λ c. ok (c.0, set_changed out c.1))

module _ {O : Type 0} (api : TreefileApi O) where
  unfoldable pub origin_set_override_commit : O → Option Text → O
  origin_set_override_commit origin checksum = api.set_override_commit origin (or_empty checksum)

  unfoldable pub origin_set_rebase_custom : O → Text → Option Text → Option Text → O
  origin_set_rebase_custom origin refspec url description =
      api.rebase_treefile origin refspec (or_empty url) (or_empty description)

  -- What an edit does to the origin.
  abbrev pub origin_apply : O → OriginEdit → O
  origin_apply origin (rebase refspec url description) =
      origin_set_rebase_custom origin refspec url description
  origin_apply origin (override_commit checksum) = origin_set_override_commit origin (some checksum)

  abbrev pub origin_apply_all : O → List OriginEdit → O
  origin_apply_all origin [] = origin
  origin_apply_all origin (e ∷ edits) = origin_apply_all (origin_apply origin e) edits

  unfoldable pub origin_add_packages : O → List Text → Bool → Bool → Result (O × Bool)
  origin_add_packages origin packages allow_existing out =
      with_changed out (api.add_packages origin packages allow_existing)

  unfoldable pub origin_add_local_packages : O → List Text → Bool → Bool → Result (O × Bool)
  origin_add_local_packages origin packages allow_existing out =
      with_changed out (api.add_local_packages origin packages allow_existing)

  unfoldable pub origin_add_local_fileoverride_packages :
      O → List Text → Bool → Bool → Result (O × Bool)
  origin_add_local_fileoverride_packages origin packages allow_existing out =
      with_changed out (api.add_local_fileoverride_packages origin packages allow_existing)

  unfoldable pub origin_remove_packages : O → List Text → Bool → Bool → Result (O × Bool)
  origin_remove_packages origin packages allow_noent out =
      with_changed out (api.remove_packages origin packages allow_noent)

  unfoldable pub origin_merge_treefile : O → Text → Bool → Result (O × Bool)
  origin_merge_treefile origin treefile out = with_changed out (api.merge_treefile origin treefile)
