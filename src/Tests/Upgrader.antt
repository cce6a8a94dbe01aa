-- ===== src/Tests/Upgrader.antt =====
-- The upgrader on concrete inputs.
use rpm_ostree.Prelude.{refl, Bool, true, false, none, some, [], ◌∷◌}
use rpm_ostree.Prelude.Text.{text_eq, codes}
use rpm_ostree.Prelude.Result.{ok}
use rpm_ostree.Deploy.Finish.{ostree, layering_none}
use rpm_ostree.Upgrader.PullBase.{
  PullEnv, override_commit, pull_base, pull_ostree, pull_from, settle_base, pull_with_options,
  options_of,
}
use rpm_ostree.Upgrader.PullBaseLaws.{Moved, Targets, pull_base-Moved}
use rpm_ostree.Upgrader.Overrides.{OverrideApi}
use rpm_ostree.Upgrader.Env.{Upgrader, LayerEnv}
use rpm_ostree.Upgrader.Deploy.{run_upgrade}
use rpm_ostree.Upgrader.LayeringLaws.{AllSound}
use rpm_ostree.Upgrader.DeployLaws.{run_upgrade-AllSound}

abbrev fedora : PullEnv
fedora = record {
  dir_to_pull = [];
  allow_older = false;
  synthetic = false;
  override_commit_s = [];
  refspec = record { kind = ostree; refspec = codes "fedora:38" };
  has_origin_merge_deployment = true;
  check_container_update = ok false;
  pull_container = ok (codes "c", codes "d");
  parse_refspec = λ r. ok (some (codes "fedora"), codes "38");
  is_checksum_string = λ r. false;
  set_ref = ok tt;
  pull_remote = λ o. ok tt;
  resolve_rev = λ r. ok (codes "new");
  check_timestamps = λ a b. ok tt;
}

pull_base-Moved_example :
    Moved fedora (codes "old") true (codes "new")
    × Targets fedora ostree (override_commit fedora) (codes "new")
unfolding pull_base pull_ostree pull_from settle_base text_eq
pull_base-Moved_example =
    pull_base-Moved fedora (codes "old") false true (codes "new") []
      (pull_with_options (options_of fedora false (codes "fedora") (codes "38")) ∷ []) refl

-- An origin that is whether it asks for packages; it removes one package of the base.
abbrev overrides : OverrideApi Bool
overrides = record {
  nevra_api = record { validate_checksum_string = λ c. ok tt; decompose_nevra = λ n. ok n };
  get_overrides_remove = λ o. codes "firefox" ∷ [];
  get_overrides_local_replace = λ o. [];
  get_overrides_replace = λ o. [];
  remove_override_remove = λ o name. o;
  remove_override_replace_local = λ o name. o;
  remove_override_replace = λ o name. o;
}

abbrev layers : LayerEnv Bool
layers = record {
  dry_run = false;
  is_booted = true;
  lock_layering = false;
  may_require_local_assembly = λ o. o;
  has_any_packages = λ o. o;
  get_regenerate_initramfs = λ o. false;
  has_initramfs_etc_files = λ o. o;
  get_initramfs_args = λ o. [];
  origin_is_container = λ o. false;
  load_base_rsack = ok tt;
  override_api = overrides;
  base_sack = record {
    get_by_pkgname = λ name. ok true;
    has_subject = λ nevra. false;
    has_pkgname = λ name. true;
  };
  finalize_overlays = λ o. ok o;
  checkout_base_tree = ok tt;
  context_setup = ok tt;
  context_prepare = ok tt;
  has_empty_transaction = false;
  previous_state_sha512 = λ c. ok (codes "s");
  new_state_sha512 = ok (codes "t");
  context_download = ok tt;
  context_import = ok tt;
  context_assemble = ok tt;
  context_assemble_end = ok tt;
  postprocess_common = ok tt;
  kernel_changed = true;
  find_kernel = ok tt;
  base_initramfs_args = ok none;
  depmod = ok tt;
  dracut = ok tt;
  finalize_kernel = ok tt;
  context_commit = ok (codes "layered");
  overlay_generate = ok tt;
  stage_overlay = ok tt;
  deploy_result = ok tt;
  history_result = ok tt;
  open_deployment = ok tt;
  sanitycheck_true = ok tt;
  set_ref_immediate = ok tt;
  cleanup_result = ok tt;
  write_result = ok tt;
}

abbrev with_packages : Upgrader Bool
with_packages = record {
  layering_initialized = false;
  layering_type = layering_none;
  layering_changed = false;
  pkgs_imported = false;
  has_context = false;
  base_revision = codes "base";
  final_revision = some (codes "old");
  origin = true;
}

run_upgrade-AllSound_example :
    AllSound layers (codes "base") (run_upgrade layers with_packages []).1
run_upgrade-AllSound_example = run_upgrade-AllSound layers with_packages (λ o h. h) refl refl
