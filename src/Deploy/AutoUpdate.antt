-- ===== src/Deploy/AutoUpdate.antt =====
-- The start of an automatic update: os_handle_automatic_update_trigger of src/daemon/rpmostreed-os.cxx,
-- rpmostree_str_to_auto_update_policy of src/libpriv/rpmostree-util.cxx, and the flags that
-- rpmostreed_transaction_new_deploy gives to the transaction.
use rpm_ostree.Prelude.{true, false, not, ◌||◌, Option, none, some, ◌++◌, if◌then◌else◌}
use rpm_ostree.Prelude.Text.{Text, text_eq, codes}
use rpm_ostree.Prelude.Result.{Result, ok, error, bind}
use rpm_ostree.Deploy.Request.{DeployFlags, DeployOptions, Modifiers, deploy_flags_from_options}
use rpm_ostree.Deploy.Finish.{is_booted_os}

-- RpmostreedAutomaticUpdatePolicy
pub data Policy : Type 0 where
  policy_none : Policy
  policy_check : Policy
  policy_stage : Policy
  policy_apply : Policy

unfoldable pub str_to_auto_update_policy : Text → Result Policy
str_to_auto_update_policy str =
    if text_eq str (codes "none") || text_eq str (codes "off")
    then ok policy_none
    else if text_eq str (codes "check")
    then ok policy_check
    else if text_eq str (codes "stage") || text_eq str (codes "ex-stage")
    then ok policy_stage
    else if text_eq str (codes "apply")
    then ok policy_apply
    else error (codes "Invalid value for AutomaticUpdatePolicy: '" ++ str ++ codes "'")

-- What the handler does: it answers that updates are off, or starts a transaction with these flags and
-- options and without modifiers.
pub data Trigger : Type 0 where
  not_enabled : Trigger
  start_deploy : DeployFlags → DeployOptions → Trigger

abbrev pub no_flags : DeployFlags
no_flags = record {
  allow_downgrade = false;
  no_pull_base = false;
  dry_run = false;
  download_only = false;
  download_metadata_only = false;
}

-- The flags of the transaction, from the options and the default flags.
abbrev pub start : DeployFlags → DeployOptions → Trigger
start dfault options = start_deploy (deploy_flags_from_options options dfault) options

unfoldable pub trigger_policy : DeployOptions → Policy → Trigger
trigger_policy options policy_none = not_enabled
trigger_policy options policy_check =
    start (record no_flags { download_metadata_only = true }) options
trigger_policy options policy_stage = start no_flags options
trigger_policy options policy_apply = start no_flags (record options { want_reboot = some true })

-- The mode "auto", which is the default, stands for the policy of the configuration.
unfoldable pub policy_of : Policy → Option Text → Result Policy
policy_of configured none = ok configured
policy_of configured (some mode) =
    if text_eq mode (codes "auto") then ok configured else str_to_auto_update_policy mode

unfoldable pub automatic_update_trigger :
    Text → Option Text → Policy → Option Text → DeployOptions → Result Trigger
automatic_update_trigger osname booted configured mode options =
    if not (is_booted_os booted osname)
    then error (codes "Cannot trigger auto-update for offline OS '" ++ osname ++ codes "'")
    else bind (policy_of configured mode) (λ policy. ok (trigger_policy options policy))

-- The modifiers of a transaction that is given none.
abbrev pub empty_modifiers : Modifiers
empty_modifiers = record {
  set_refspec = none;
  set_revision = none;
  install_packages = none;
  install_fileoverride_packages = none;
  uninstall_packages = none;
  enable_modules = none;
  disable_modules = none;
  install_modules = none;
  uninstall_modules = none;
  override_replace_packages = none;
  override_remove_packages = none;
  override_reset_packages = none;
  install_local_packages = none;
  install_fileoverride_local_packages = none;
  override_replace_local_packages = none;
  local_repo_remote = none;
  treefile = none;
}
