-- ===== src/Deploy/Finish.antt =====
-- The end of deploy_transaction_execute (src/daemon/rpmostreed-transaction-types.cxx), from the point
-- where the origin is computed.
use rpm_ostree.Prelude.{
  Bool, true, false, not, ◌&&◌, ◌||◌, Option, none, some, List, [], ◌∷◌, ◌++◌, if◌then◌else◌,
  is_some,
}
use rpm_ostree.Prelude.Text.{Text, text_eq, codes}
use rpm_ostree.Prelude.Result.{
  Result, Action, pure, throw, call, perform, attempt, do_if, ◌>>=◌, ◌>>◌,
}
use rpm_ostree.Txn.Effects.{vardict_lookup_bool}
use rpm_ostree.Prelude.Int.{ℤ}
use rpm_ostree.Deploy.Request.{DeployFlags}

pub data RefspecType : Type 0 where
  container : RefspecType
  ostree : RefspecType
  checksum : RefspecType

-- RpmOstreeSysrootUpgraderLayeringType
pub data LayeringType : Type 0 where
  layering_none : LayeringType
  layering_local : LayeringType
  layering_rpmmd_repos : LayeringType

-- layering_type < RPMOSTREE_SYSROOT_UPGRADER_LAYERING_RPMMD_REPOS
abbrev pub below_rpmmd_repos : LayeringType → Bool
below_rpmmd_repos layering_none = true
below_rpmmd_repos layering_local = true
below_rpmmd_repos layering_rpmmd_repos = false

abbrev pub is_checksum : RefspecType → Bool
is_checksum container = false
is_checksum ostree = false
is_checksum checksum = true

-- What the transaction does to the outside; generate_update_variant tells whether it is given the
-- new deployment, pull_base whether it pulls the commit object only. An assertion that fails ends the
-- process.
pub data DeployStep : Type 0 where
  set_title : Text → DeployStep
  record_driver_info : Text → DeployStep
  migrate_pkgcache : DeployStep
  pull_local_commit : Text → DeployStep
  import_many_local_rpms : List ℤ → DeployStep
  pull_base : Bool → DeployStep
  assertion_failed : DeployStep
  output_message : Text → DeployStep
  generate_update_variant : Bool → DeployStep
  import_pkgs : DeployStep
  set_caller_info : DeployStep
  upgrader_deploy : DeployStep
  purge_refspec : Text → DeployStep
  transaction_apply_live : DeployStep
  daemon_reboot : DeployStep

-- The local variables at that point, and how the calls end.
pub record FinishEnv : Type 0 where
  pub flags : DeployFlags
  pub osname : Text
  pub refspec : Option Text
  pub revision : Option Text
  pub old_refspec : Option Text
  pub skip_base_check : Bool
  pub changed : Bool
  pub remove_changed : Bool
  pub override_changed : Bool
  pub final_kind : RefspecType
  pub custom_description : Text
  pub has_packages : Bool
  pub booted_osname : Option Text
  pub skip_purge : Option Bool
  pub apply_live : Option Bool
  pub want_reboot : Option Bool
  pub get_sack_for_booted : Result (Unit {0})
  pub update_variant : Result (Unit {0})
  pub prep_layering : Result (LayeringType × Bool)
  pub import : Result (Unit {0})
  pub deploy : Result (Unit {0})
  pub purge : Result (Unit {0})
  pub apply : Result (Unit {0})
  pub inhibitor_locks : Result (Unit {0})

abbrev pub is_upgrade : FinishEnv → Bool
is_upgrade env =
    not env.flags.no_pull_base && not (is_some env.refspec) && not (is_some env.revision)

abbrev pub is_booted_os : Option Text → Text → Bool
is_booted_os none osname = false
is_booted_os (some booted) osname = text_eq osname booted

-- The early return for download_metadata_only.
unfoldable pub update_metadata : FinishEnv → Action DeployStep (Unit {0})
update_metadata env =
    if not (is_booted_os env.booted_osname env.osname)
    then throw (codes "Refusing to download rpm-md for offline OS '" ++ env.osname ++ codes "'")
    else do_if env.has_packages (call env.get_sack_for_booted)
      >> attempt (generate_update_variant false) env.update_variant

abbrev pub purge_old : FinishEnv → Option Text → Action DeployStep (Unit {0})
purge_old env none = pure tt
purge_old env (some old) =
    do_if (is_some env.refspec && not (vardict_lookup_bool env.skip_purge false))
      (attempt (purge_refspec old) env.purge)

abbrev pub live_or_reboot : FinishEnv → Action DeployStep (Unit {0})
live_or_reboot env =
    if vardict_lookup_bool env.apply_live false
    then attempt transaction_apply_live env.apply
    else do_if (vardict_lookup_bool env.want_reboot false)
        (call env.inhibitor_locks >> perform daemon_reboot)

-- What follows rpmostree_sysroot_upgrader_deploy.
unfoldable pub after_deploy : FinishEnv → Action DeployStep (Unit {0})
after_deploy env =
    purge_old env env.old_refspec
    >> do_if (is_upgrade env) (attempt (generate_update_variant true) env.update_variant)
    >> live_or_reboot env

-- The branch `changed || self->refspec`.
unfoldable pub deploy_changes : FinishEnv → Bool → Action DeployStep (Unit {0})
deploy_changes env changed =
    if env.flags.download_only
    then perform
        (output_message (if changed then codes "Update downloaded." else codes "No changes."))
    else attempt upgrader_deploy env.deploy >> after_deploy env

abbrev pub no_change : FinishEnv → Text
no_change env = if is_upgrade env then codes "No upgrade available." else codes "No change."

abbrev pub is_empty : Text → Bool
is_empty [] = true
is_empty (b ∷ t) = false

abbrev pub pinned : Text → Text
pinned description =
    if not (is_empty description)
    then codes "Pinned to commit by custom origin: " ++ description
    else codes "Pinned to commit; no upgrade available"

-- The other branch.
unfoldable pub report_no_change : FinishEnv → LayeringType → Action DeployStep (Unit {0})
report_no_change env kind = perform (
    output_message (
      if is_checksum env.final_kind && below_rpmmd_repos kind
      then pinned env.custom_description
      else no_change env))

-- From the early return for dry_run on.
unfoldable pub apply_changes : FinishEnv → LayeringType → Bool → Bool → Action DeployStep (Unit {0})
apply_changes env kind layering_changed changed =
    if env.flags.dry_run
    then pure tt
    else do_if layering_changed (attempt import_pkgs env.import)
      >> perform set_caller_info
      >> (if changed || is_some env.refspec
          then deploy_changes env changed
          else report_no_change env kind)

unfoldable pub after_layering : FinishEnv → LayeringType × Bool → Action DeployStep (Unit {0})
after_layering env (kind, layering_changed) =
    let changed = (env.changed || layering_changed) || env.remove_changed || env.override_changed in
    if env.skip_base_check && not changed && not (is_some env.refspec || is_some env.revision)
    then perform (output_message (no_change env))
    else apply_changes env kind layering_changed changed

-- The end of deploy_transaction_execute.
unfoldable pub finish : FinishEnv → Action DeployStep (Unit {0})
finish env =
    if env.flags.download_metadata_only
    then update_metadata env
    else call env.prep_layering >>= after_layering env
