-- ===== src/Tests/Execute.antt =====
-- Whole runs of the transaction that makes a deployment.
use rpm_ostree.Prelude.{ℕ, zero, suc, ◌≡◌, refl, true, false, none, some, List, [], ◌∷◌, ◌++◌, any}
use rpm_ostree.Prelude.Text.{Text, codes}
use rpm_ostree.Prelude.Result.{ok}
use rpm_ostree.Deploy.Request.{DeployFlags, DeployOptions, Modifiers}
use rpm_ostree.Deploy.Finish.{layering_none, ostree, set_title, assertion_failed}
use rpm_ostree.Deploy.FinishLaws.{ordered}
use rpm_ostree.Deploy.Refspec.{version_kind}
use rpm_ostree.Deploy.Origin.{TreefileApi}
use rpm_ostree.Deploy.Env.{DeployEnv}
use rpm_ostree.Deploy.Execute.{execute}
use rpm_ostree.Deploy.ExecuteLaws.{execute-ordered}
use rpm_ostree.Deploy.InertLaws.{commits, execute-Inert}
use rpm_ostree.Deploy.AutoUpdate.{
  policy_check, start_deploy, trigger_policy, empty_modifiers, no_flags,
}
use rpm_ostree.Deploy.AutoUpdateLaws.{Passes, trigger_policy-asserts}

-- An origin that is its list of packages.
abbrev package_api : TreefileApi (List Text)
package_api = record {
  get_base_refspec = λ o. record { kind = ostree; refspec = codes "fedora:38" };
  get_origin_custom_description = λ o. [];
  has_packages = λ o. false;
  get_packages_override_replace_local = λ o. [];
  get_initramfs_regenerate = λ o. false;
  has_initramfs_etc_files = λ o. false;
  initramfs_etc_files_untrack_all = λ o. (o, false);
  set_initramfs_regenerate = λ o b args. o;
  set_override_commit = λ o c. o;
  set_cliwrap = λ o b. o;
  rebase_treefile = λ o r u d. o;
  add_packages = λ o pkgs b. ok (o ++ pkgs, true);
  add_local_packages = λ o pkgs b. ok (o ++ pkgs, true);
  add_local_fileoverride_packages = λ o pkgs b. ok (o ++ pkgs, true);
  remove_packages = λ o pkgs b. ok (o, false);
  remove_all_packages = λ o. ([], true);
  add_packages_override_remove = λ o pkgs. ok o;
  add_packages_override_replace_local = λ o pkgs. ok o;
  remove_package_override_remove = λ o p. (o, false);
  remove_package_override_replace_local = λ o p. (o, false);
  remove_package_override_replace = λ o p. (o, false);
  remove_all_overrides = λ o. (o, false);
  merge_treefile = λ o t. ok (o, false);
}

abbrev quiet_env : DeployEnv (List Text)
quiet_env = record {
  api = package_api;
  refspec_api = record {
    parse_refspec = λ text. ok (none, text);
    refspec_classify = λ text. ostree;
    is_digest = λ text. false;
  };
  revision_api = record {
    parse_revision = λ text. ok (version_kind, text);
    lookup_version = λ refspec version. ok version;
    lookup_checksum = λ refspec checksum. ok tt;
  };
  nevra_api = record {
    validate_checksum_string = λ text. ok tt;
    decompose_nevra = λ text. ok text;
  };
  local_rpms = record {
    transaction_start = ok tt;
    open_rootfs = ok tt;
    new_sepolicy = ok tt;
    importer_run = λ fd. ok (codes "0", codes "vim");
    commit_transaction = ok tt;
  };
  osname = codes "fedora";
  booted_osname = some (codes "fedora");
  sd_unit = none;
  mkdir_run_dir = ok tt;
  write_driver_info = ok tt;
  migrate = ok tt;
  upgrader_new = λ flags. ok [];
  open_local_repo = ok tt;
  resolve_local_rev = λ text. ok text;
  pull_local = λ rev. ok tt;
  is_ostree_host = ok true;
  base = codes "0";
  pulled_base = codes "1";
  get_refsack_for_commit = λ commit. ok (λ pkg. []);
  layered_info = ok ([], []);
  upgrader_pull_base = λ o. ok true;
  has_live_apply_state = ok false;
  get_sack_for_booted = ok tt;
  update_variant = ok tt;
  prep_layering = λ allow o. ok (layering_none, true);
  import_pkgs_result = ok tt;
  upgrader_deploy_result = λ o. ok tt;
  purge = ok tt;
  apply = ok tt;
  inhibitor_locks = ok tt;
}

-- Numbers in unary.
abbrev print_u : ℕ → Text
print_u zero = []
print_u (suc n) = 49 ∷ print_u n

abbrev cached : DeployOptions
cached = record {
  opt_allow_downgrade = none;
  opt_no_pull_base = none;
  opt_dry_run = none;
  opt_download_only = none;
  skip_purge = none;
  cache_only = some true;
  no_overrides = none;
  apply_live = none;
  want_reboot = none;
  register_driver = none;
  initiating_command_line = none;
  no_layering = none;
  no_initramfs = none;
  idempotent_layering = none;
  allow_inactive = none;
  lock_finalization = none;
  skip_branch_check = none;
  ex_cliwrap = none;
  custom_origin = none;
}

-- An upgrade that installs a package.
abbrev install_vim : Modifiers
install_vim = record empty_modifiers { install_packages = some (codes "vim" ∷ []) }

execute-ordered_example :
    ordered false (execute quiet_env print_u cached install_vim no_flags none []).1 ≡ true
execute-ordered_example = execute-ordered quiet_env print_u cached install_vim no_flags none

abbrev dry : DeployFlags
dry = record no_flags { dry_run = true }

execute-Inert_example :
    any commits (execute quiet_env print_u cached install_vim dry none []).1 ≡ false
execute-Inert_example = execute-Inert quiet_env print_u cached install_vim dry none refl

cached-Passes : Passes cached
unfolding rpm_ostree.Txn.Effects.vardict_lookup_bool
cached-Passes = record { purge = refl; download = refl; live = refl; driver = refl }

trigger_policy-asserts_example :
    (flags : DeployFlags) × (trigger_policy cached policy_check ≡ start_deploy flags cached)
    × (text : Text) × ((execute quiet_env print_u cached empty_modifiers flags none []).1
        ≡ set_title text ∷ assertion_failed ∷ [])
unfolding rpm_ostree.Txn.Effects.vardict_lookup_bool
trigger_policy-asserts_example = trigger_policy-asserts quiet_env print_u cached refl cached-Passes
