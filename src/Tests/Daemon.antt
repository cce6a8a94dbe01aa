-- ===== src/Tests/Daemon.antt =====
-- The daemon on concrete events: src/daemon/rpmostreed-transaction.cxx, rpmostreed-sysroot.cxx and
-- rpmostreed-daemon.cxx.
use rpm_ostree.Prelude.{
  ◌≡◌, ◌≢◌, refl, ◌⊎◌, true, false, Option, none, some, List, [], ◌∷◌, arith, inr, ◌==◌,
  if◌then◌else◌, ◌*◌, ◌/◌, ◌↔◌,
}
use rpm_ostree.Prelude.Text.{Text, codes, text_eq}
use rpm_ostree.Daemon.Objects.{Invocation, Transaction, World, boot}
use rpm_ostree.Daemon.Transaction.{Execution, task_boolean, returned}
use rpm_ostree.Daemon.Lifecycle.{InitEnv}
use rpm_ostree.Daemon.Events.{
  Event, method_call, connection_opened, start_called, task_done, connection_closed, close_timeout,
  step, run,
}
use rpm_ostree.Daemon.Invariant.{Inv, IsSound}
use rpm_ostree.Daemon.Start.{Safe}
use rpm_ostree.Daemon.Safety.{run-boot-Inv}
use rpm_ostree.Daemon.Status.{
  Daemon, client_added, txn_changed, client_gone, idle_timeout, starting, update_status,
  run_until_idle_exit, Tick,
}
use rpm_ostree.Daemon.StatusLaws.{
  is_reload, run_meets_reason, Tracked, run_until_idle_exit-IsTracked,
}
use rpm_ostree.Daemon.Progress.{Freed, close_timeout-frees}
use rpm_ostree.Daemon.Output.{percentage, Progress, percentage_stuck}
use rpm_ostree.Prelude.{sym, subst, any}
use rpm_ostree.Prelude.Result.{ok}
use rpm_ostree.Daemon.Authorize.{
  install_uninstall_packages, Request, vardict_lookup_bool, has_children, base_action,
  changes_packages, changes_local, changes_overrides, or_override, update_actions, method_actions,
  Authority, authorize_method,
}
use rpm_ostree.Daemon.AuthorizeLaws.{
  Granted, authorize_method-passes, is_needed, update_deployment-needs,
}

abbrev upgrade : Invocation
upgrade = record {
  method_name = codes "Upgrade";
  sender = codes ":1.7";
  object_path = codes "/org/projectatomic/rpmostree1/fedora";
  parameters = [];
}

abbrev all_ok : InitEnv
all_ok = record {
  unlink_ok = true;
  server_ok = true;
  chmod_ok = true;
  sysroot_path = true;
  initialize_ok = true;
  load_ok = true;
  failpoint_ok = true;
  try_lock_ok = true;
  lock_acquired = true;
}

abbrev upgrade_run : List Event
upgrade_run =
    method_call upgrade true all_ok (codes "upgrade")
    ∷ connection_opened 0 5 true
    ∷ start_called 0 5
    ∷ task_done 0 (task_boolean true) none
    ∷ connection_closed 0 5
    ∷ []

run-boot-Inv_example : Safe (run upgrade_run boot)
run-boot-Inv_example = run-boot-Inv upgrade_run

abbrev idle_daemon : Daemon
idle_daemon = record {
  bus_clients = [];
  running = false;
  idle_exit_source = false;
  rerender_timer = false;
  idle_exit_timeout = 60;
  idle_exit_disabled = false;
  have_active_txn = false;
  status = starting;
}

-- The last iteration takes a client's registration after the exit timer.
abbrev session : List (List Tick)
session =
    (client_added (codes ":1.7") ∷ txn_changed true ∷ [])
    ∷ (txn_changed false ∷ [])
    ∷ (client_gone (codes ":1.7") ∷ [])
    ∷ (idle_timeout ∷ client_added (codes ":1.8") ∷ [])
    ∷ []

run_until_idle_exit-IsTracked_example :
    Tracked
      (any (any is_reload) session)
      (run_meets_reason session (update_status (record idle_daemon { running = true })))
      (run_until_idle_exit session idle_daemon)
run_until_idle_exit-IsTracked_example = run_until_idle_exit-IsTracked session idle_daemon refl

-- A finished upgrade whose client stays connected.
abbrev lingering : Transaction
lingering = record {
  invocation = upgrade;
  executed = true;
  cancelled = false;
  sysroot = true;
  sysroot_locked = false;
  watch_id = 0;
  serving = true;
  peer_connections = 5 ∷ [];
  finished_params = some (true, []);
  task = false;
  title = codes "upgrade";
}

abbrev lingering_world : World
lingering_world = record boot {
  transaction = some 0;
  close_transaction_timeout_id = 3;
  active_transaction = (upgrade.method_name, upgrade.sender, upgrade.object_path);
  objects = λ i. if 0 == i then some lingering else none;
  next_id = 1;
  next_source = 3;
}

lingering-IsSound : IsSound 3 lingering
lingering-IsSound = record {
  flags = refl;
  phase = inr (inr (refl, refl, refl));
  locked = λ e. cc;
  unlocked = λ _. refl;
  quiet = λ e. absurd (ground arith);
  armed = λ _. (omega arith, refl);
  serving = refl;
}

lingering_world-Inv : Inv lingering_world
lingering_world-Inv = record { slot = ((lingering-IsSound, refl), λ i h. ground arith) }

close_timeout-frees_example : Freed 0 (step close_timeout lingering_world)
close_timeout-frees_example =
    close_timeout-frees lingering_world 0 lingering_world-Inv refl (omega arith)

abbrev no_progress : Progress
no_progress = record { progress_str = []; state_percent = false; n_items = 0 }

percentage_stuck_example : (percentage 5 10 ≡ some 0) × (percentage 5 10 ≢ some (5 * 100 / 10))
percentage_stuck_example = percentage_stuck 5 10 (omega arith) (omega arith) (omega arith)

abbrev no_text : Option Text
no_text = none

abbrev succeeded : Option Execution
succeeded = some (returned true none)

abbrev no_modifiers : Request
no_modifiers = record {
  set_refspec = none;
  set_revision = none;
  install_packages = none;
  uninstall_packages = none;
  enable_modules = none;
  disable_modules = none;
  install_modules = none;
  uninstall_modules = none;
  override_replace_packages = none;
  override_remove_packages = none;
  override_reset_packages = none;
  install_local_packages = none;
  install_local_fileoverride_packages = none;
  override_replace_local_packages = none;
  no_pull_base = none;
  no_overrides = none;
  no_layering = none;
  no_initramfs = none;
}

abbrev install_vim : Request
install_vim = record no_modifiers {
  install_packages = some (codes "vim" ∷ []);
  no_pull_base = some true;
}

abbrev grants_all : Authority
grants_all = record {
  authorize_direct = ok false;
  get_polkit_authority = ok tt;
  check_authorization = λ p. ok true;
}

authorize_method-passes_example :
    (authorize_method grants_all (codes "UpdateDeployment") install_vim ≡ ok tt) ↔ (
      (grants_all.authorize_direct ≡ ok true)
      ⊎ ((grants_all.authorize_direct ≡ ok false)
          × (grants_all.get_polkit_authority ≡ ok tt)
          × Granted grants_all.check_authorization
              (method_actions (codes "UpdateDeployment") install_vim)))
authorize_method-passes_example =
    authorize_method-passes grants_all (codes "UpdateDeployment") install_vim

needs_install : is_needed install_vim install_uninstall_packages ≡ true
unfolding is_needed changes_packages vardict_lookup_bool
needs_install = refl

install_vim-actions :
    method_actions (codes "UpdateDeployment") install_vim ≡ some (install_uninstall_packages ∷ [])
unfolding method_actions text_eq update_actions base_action or_override changes_packages
    changes_local changes_overrides has_children vardict_lookup_bool
install_vim-actions = refl

install_vim-passes : authorize_method grants_all (codes "UpdateDeployment") install_vim ≡ ok tt
install_vim-passes = authorize_method-passes_example.1 (
    inr (
      refl,
      refl,
      subst (Granted grants_all.check_authorization) (sym install_vim-actions) (refl, tt),
    ))

update_deployment-needs_example :
    grants_all.check_authorization install_uninstall_packages ≡ ok true
update_deployment-needs_example =
    update_deployment-needs grants_all install_vim install_uninstall_packages needs_install refl
      install_vim-passes
