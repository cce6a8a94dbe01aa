-- ===== src/Deploy/Request.antt =====
-- What a client asks UpdateDeployment for, and the flags of the transaction: DeployTransaction of
-- src/daemon/rpmostreed-transaction-types.cxx.
use rpm_ostree.Prelude.{Bool, true, Option, none, some, List, [], ◌∷◌, if◌then◌else◌, is_some}
use rpm_ostree.Prelude.Text.{Text}
use rpm_ostree.Prelude.Int.{ℤ}
use rpm_ostree.Txn.Effects.{vardict_lookup_bool}

-- RpmOstreeTransactionDeployFlags
pub record DeployFlags : Type 0 where
  pub allow_downgrade : Bool
  pub no_pull_base : Bool
  pub dry_run : Bool
  pub download_only : Bool
  pub download_metadata_only : Bool

-- The entries of `options` that are read.
pub record DeployOptions : Type 0 where
  pub opt_allow_downgrade : Option Bool
  pub opt_no_pull_base : Option Bool
  pub opt_dry_run : Option Bool
  pub opt_download_only : Option Bool
  pub skip_purge : Option Bool
  pub cache_only : Option Bool
  pub no_overrides : Option Bool
  pub apply_live : Option Bool
  pub want_reboot : Option Bool
  pub register_driver : Option Text
  pub initiating_command_line : Option Text
  pub no_layering : Option Bool
  pub no_initramfs : Option Bool
  pub idempotent_layering : Option Bool
  pub allow_inactive : Option Bool
  pub lock_finalization : Option Bool
  pub skip_branch_check : Option Bool
  pub ex_cliwrap : Option Bool
  pub custom_origin : Option (Text × Text)

-- The entries of `modifiers` that are read.
pub record Modifiers : Type 0 where
  pub set_refspec : Option Text
  pub set_revision : Option Text
  pub install_packages : Option (List Text)
  pub install_fileoverride_packages : Option (List Text)
  pub uninstall_packages : Option (List Text)
  pub enable_modules : Option (List Text)
  pub disable_modules : Option (List Text)
  pub install_modules : Option (List Text)
  pub uninstall_modules : Option (List Text)
  pub override_replace_packages : Option (List Text)
  pub override_remove_packages : Option (List Text)
  pub override_reset_packages : Option (List Text)
  pub install_local_packages : Option (List ℤ)
  pub install_fileoverride_local_packages : Option (List ℤ)
  pub override_replace_local_packages : Option (List ℤ)
  pub local_repo_remote : Option ℤ
  pub treefile : Option Text

-- deploy_flags_from_options, on set_deploy_flag: an option that is given replaces the flag.
unfoldable pub deploy_flags_from_options : DeployOptions → DeployFlags → DeployFlags
deploy_flags_from_options options defaults = record {
  allow_downgrade = vardict_lookup_bool options.opt_allow_downgrade defaults.allow_downgrade;
  no_pull_base = vardict_lookup_bool options.opt_no_pull_base defaults.no_pull_base;
  dry_run = vardict_lookup_bool options.opt_dry_run defaults.dry_run;
  download_only = vardict_lookup_bool options.opt_download_only defaults.download_only;
  download_metadata_only = defaults.download_metadata_only;
}

-- vardict_lookup_strv_canonical, and strdupv_canonicalize
unfoldable pub canonical : Option (List Text) → Option (List Text)
canonical none = none
canonical (some []) = none
canonical (some (x ∷ xs)) = some (x ∷ xs)

-- A list is given, and has an element.
abbrev pub given : Option (List Text) → Bool
given list = is_some (canonical list)

-- The flag at the start of deploy_transaction_execute, where `refspec_or_revision` is the default.
unfoldable pub execute_flags : DeployOptions → Bool → DeployFlags → DeployFlags
execute_flags options refspec_or_revision flags =
    if vardict_lookup_bool options.opt_allow_downgrade refspec_or_revision
    then record flags { allow_downgrade = true }
    else flags
