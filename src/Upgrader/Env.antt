-- ===== src/Upgrader/Env.antt =====
-- The state of the upgrader and what it finds: src/daemon/rpmostree-sysroot-upgrader.cxx.
use rpm_ostree.Prelude.{Bool, true, false, Option, List, if◌then◌else◌}
use rpm_ostree.Prelude.Text.{Text, codes}
use rpm_ostree.Prelude.Result.{Result, Action, pure, throw, perform, ◌>>◌}
use rpm_ostree.Upgrader.Overrides.{OverrideApi, BaseSack}
use rpm_ostree.Deploy.Finish.{LayeringType, layering_none, layering_local, layering_rpmmd_repos}

-- What the upgrader does to the outside. The initramfs is generated with these arguments, and with the
-- root's own /etc or not; the old initramfs, which it falls back to, is left out.
pub data LayerStep : Type 0 where
  download_packages : LayerStep
  import_packages : LayerStep
  assemble : LayerStep
  assemble_end : LayerStep
  run_depmod : LayerStep
  run_dracut : List Text → Bool → LayerStep
  commit_root : LayerStep
  stage_overlay_initrd : LayerStep
  stage_tree : Text → LayerStep
  deploy_tree : Text → LayerStep
  write_history : LayerStep
  sanitycheck : LayerStep
  set_base_ref : Text → LayerStep
  syscore_cleanup : LayerStep
  write_deployment : LayerStep
  assertion_failed : LayerStep

-- The fields of struct RpmOstreeSysrootUpgrader that change.
pub record Upgrader (O : Type 0) : Type 0 where
  pub layering_initialized : Bool
  pub layering_type : LayeringType
  pub layering_changed : Bool
  pub pkgs_imported : Bool
  pub has_context : Bool
  pub base_revision : Text
  pub final_revision : Option Text
  pub origin : O

-- The flags and the configuration, what the functions on the origin answer, and how the calls end.
pub record LayerEnv (O : Type 0) : Type 0 where
  pub dry_run : Bool
  pub is_booted : Bool
  pub lock_layering : Bool
  pub may_require_local_assembly : O → Bool
  pub has_any_packages : O → Bool
  pub get_regenerate_initramfs : O → Bool
  pub has_initramfs_etc_files : O → Bool
  pub get_initramfs_args : O → List Text
  pub origin_is_container : O → Bool
  pub load_base_rsack : Result (Unit {0})
  pub override_api : OverrideApi O
  pub base_sack : BaseSack
  pub finalize_overlays : O → Result O
  pub checkout_base_tree : Result (Unit {0})
  pub context_setup : Result (Unit {0})
  pub context_prepare : Result (Unit {0})
  pub has_empty_transaction : Bool
  pub previous_state_sha512 : Text → Result Text
  pub new_state_sha512 : Result Text
  pub context_download : Result (Unit {0})
  pub context_import : Result (Unit {0})
  pub context_assemble : Result (Unit {0})
  pub context_assemble_end : Result (Unit {0})
  pub postprocess_common : Result (Unit {0})
  pub kernel_changed : Bool
  pub find_kernel : Result (Unit {0})
  pub base_initramfs_args : Result (Option (List Text))
  pub depmod : Result (Unit {0})
  pub dracut : Result (Unit {0})
  pub finalize_kernel : Result (Unit {0})
  pub context_commit : Result Text
  pub overlay_generate : Result (Unit {0})
  pub stage_overlay : Result (Unit {0})
  pub deploy_result : Result (Unit {0})
  pub history_result : Result (Unit {0})
  pub open_deployment : Result (Unit {0})
  pub sanitycheck_true : Result (Unit {0})
  pub set_ref_immediate : Result (Unit {0})
  pub cleanup_result : Result (Unit {0})
  pub write_result : Result (Unit {0})

abbrev pub is_layering_none : LayeringType → Bool
is_layering_none layering_none = true
is_layering_none layering_local = false
is_layering_none layering_rpmmd_repos = false

abbrev pub is_rpmmd_repos : LayeringType → Bool
is_rpmmd_repos layering_none = false
is_rpmmd_repos layering_local = false
is_rpmmd_repos layering_rpmmd_repos = true

abbrev pub g_assert : Bool → Action LayerStep (Unit {0})
g_assert b = if b then pure tt else (perform assertion_failed >> throw (codes "assertion failed"))
