-- ===== src/Deploy/Env.antt =====
-- What deploy_transaction_execute of
-- src/daemon/rpmostreed-transaction-types.cxx finds, and its local
-- variables.
use rpm_ostree.Prelude.{Bool, Option, List, if◌then◌else◌}
use rpm_ostree.Prelude.Text.{Text, codes}
use rpm_ostree.Prelude.Result.{Result, ok, error, Action, pure, throw, perform, ◌>>◌}
use rpm_ostree.Deploy.Finish.{LayeringType, DeployStep, assertion_failed}
use rpm_ostree.Deploy.Refspec.{RefspecApi, RevisionApi}
use rpm_ostree.Deploy.Title.{UpgraderFlags}
use rpm_ostree.Deploy.Origin.{TreefileApi}
use rpm_ostree.Deploy.Overrides.{NevraApi, LocalRpmEnv, Sack}

-- What the transaction finds, and how its calls end. The base is the one of the upgrader, `base` before
-- and `pulled_base` after the pull; `layered_info` is what the merge deployment says was removed and
-- replaced, with nevra and name.
pub record DeployEnv (O : Type 0) : Type 0 where
  pub api : TreefileApi O
  pub refspec_api : RefspecApi
  pub revision_api : RevisionApi
  pub nevra_api : NevraApi
  pub local_rpms : LocalRpmEnv
  pub osname : Text
  pub booted_osname : Option Text
  pub sd_unit : Option Text
  pub mkdir_run_dir : Result (Unit {0})
  pub write_driver_info : Result (Unit {0})
  pub migrate : Result (Unit {0})
  pub upgrader_new : UpgraderFlags → Result O
  pub open_local_repo : Result (Unit {0})
  pub resolve_local_rev : Text → Result Text
  pub pull_local : Text → Result (Unit {0})
  pub is_ostree_host : Result Bool
  pub base : Text
  pub pulled_base : Text
  pub get_refsack_for_commit : Text → Result Sack
  pub layered_info : Result (List (Text × Text) × List (Text × Text))
  pub upgrader_pull_base : O → Result Bool
  pub has_live_apply_state : Result Bool
  pub get_sack_for_booted : Result (Unit {0})
  pub update_variant : Result (Unit {0})
  pub prep_layering : Bool → O → Result (LayeringType × Bool)
  pub import_pkgs_result : Result (Unit {0})
  pub upgrader_deploy_result : O → Result (Unit {0})
  pub purge : Result (Unit {0})
  pub apply : Result (Unit {0})
  pub inhibitor_locks : Result (Unit {0})

-- The local variables: the origin, `changed`, `remove_changed`, `override_changed` and `base_rsack`.
pub record Work (O : Type 0) : Type 0 where
  pub origin : O
  pub changed : Bool
  pub remove_changed : Bool
  pub override_changed : Bool
  pub base_rsack : Option Sack

-- g_assert
abbrev pub g_assert : Bool → Action DeployStep (Unit {0})
g_assert b = if b then pure tt else (perform assertion_failed >> throw (codes "assertion failed"))

-- A call that yields a value, and has the effect if it does not fail.
abbrev pub traced : {A : Type 0} → DeployStep → Result A → Action DeployStep A
traced step (ok a) = perform step >> pure a
traced step (error e) = throw e
