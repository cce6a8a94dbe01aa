-- ===== src/Daemon/Status.antt =====
-- Clients and the idle exit of src/daemon/rpmostreed-daemon.cxx.
use rpm_ostree.Prelude.{
  ℕ, ◌%◌, ◌^◌, Bool, true, false, not, ◌&&◌, Option, none, some, List, [], ◌∷◌, ltb, any,
  if◌then◌else◌,
}
use rpm_ostree.Prelude.Text.{Text, text_eq}

-- The texts that sd_notifyf sends.
pub data Status : Type 0 where
  starting transaction_active clients_connected idle_exit exiting : Status

-- The fields of struct _RpmostreedDaemon that these functions use. `idle_exit_source` says whether
-- it is set, `rerender_timer` whether the ten-second timer runs, `have_active_txn` whether the
-- sysroot's active-transaction names a method, and `idle_exit_disabled` whether the environment
-- sets RPMOSTREE_DEBUG_DISABLE_DAEMON_IDLE_EXIT.
pub record Daemon : Type 0 where
  pub bus_clients : List Text
  pub running : Bool
  pub idle_exit_source : Bool
  pub rerender_timer : Bool
  pub idle_exit_timeout : ℕ
  pub idle_exit_disabled : Bool
  pub have_active_txn : Bool
  pub status : Status

abbrev pub no_clients : List Text → Bool
no_clients [] = true
no_clients (c ∷ cs) = false

-- currently_idle of update_status
unfoldable pub currently_idle : Daemon → Bool
currently_idle d =
    if not d.idle_exit_disabled && ltb 0 d.idle_exit_timeout
    then not d.have_active_txn && no_clients d.bus_clients
    else false

-- The timers that update_status arms or removes.
unfoldable pub adjust_timers : Daemon → Daemon
adjust_timers d =
    if currently_idle d && not d.idle_exit_source
    then record d { idle_exit_source = true; rerender_timer = true }
    else if not (currently_idle d) && d.idle_exit_source
    then record d { idle_exit_source = false; rerender_timer = false }
    else d

-- What sd_notifyf tells systemd; `none` is the failed assertion, or a read of the missing source.
unfoldable pub notify : Daemon → Option Daemon
notify d =
    if d.have_active_txn
    then some (record d { status = transaction_active })
    else if not (no_clients d.bus_clients)
    then some (record d { status = clients_connected })
    else if currently_idle d
    then (if d.idle_exit_source then some (record d { status = idle_exit }) else none)
    else some d

-- update_status
unfoldable pub update_status : Daemon → Option Daemon
update_status d = notify (adjust_timers d)

-- on_idle_exit
unfoldable pub on_idle_exit : Daemon → Option Daemon
on_idle_exit d = some (record d { idle_exit_source = false; running = false; status = exiting })

-- rpmostreed_daemon_exit_now
unfoldable pub exit_now : Daemon → Option Daemon
exit_now d = some (record d { running = false })

-- The part of rpmostreed_daemon_reload_config that these functions see: IdleExitTimeout of the
-- configuration, 64 bits wide, is cut to 32.
unfoldable pub reload_config : ℕ → Daemon → Option Daemon
reload_config timeout d = some (record d { idle_exit_timeout = timeout % 2 ^ 32 })

unfoldable pub drop_client : Text → List Text → List Text
drop_client c [] = []
drop_client c (x ∷ xs) = let rest = drop_client c xs in if text_eq x c then rest else x ∷ rest

-- rpmostreed_daemon_add_client
unfoldable pub add_client : Text → Daemon → Option Daemon
add_client c d =
    if any (λ x. text_eq x c) d.bus_clients
    then some d
    else update_status (record d { bus_clients = c ∷ d.bus_clients })

-- rpmostreed_daemon_remove_client
unfoldable pub remove_client : Text → Daemon → Option Daemon
remove_client c d =
    if any (λ x. text_eq x c) d.bus_clients
    then update_status (record d { bus_clients = drop_client c d.bus_clients })
    else some d

-- on_active_txn_changed: the sysroot's property is the new state, and the status is told.
unfoldable pub on_active_txn_changed : Bool → Daemon → Option Daemon
on_active_txn_changed active d = update_status (record d { have_active_txn = active })

-- What the main loop dispatches: calls, signals and timers. A timer that is not armed has no effect.
pub data Tick : Type 0 where
  client_added client_gone : Text → Tick
  txn_changed : Bool → Tick
  config_reloaded : ℕ → Tick
  exit_asked : Tick
  rerender : Tick
  idle_timeout : Tick

unfoldable pub tick : Tick → Daemon → Option Daemon
unfolding on_active_txn_changed reload_config exit_now
tick (client_added c) d = add_client c d
tick (client_gone c) d = remove_client c d
tick (txn_changed active) d = on_active_txn_changed active d
tick (config_reloaded timeout) d = reload_config timeout d
tick exit_asked d = exit_now d
tick rerender d = if d.rerender_timer then update_status d else some d
tick idle_timeout d = if d.idle_exit_source then on_idle_exit d else some d

-- g_main_context_iteration: all sources that are ready, whatever becomes of `running` in between.
unfoldable pub iteration : List Tick → Option Daemon → Option Daemon
iteration ts none = none
iteration [] (some d) = some d
iteration (t ∷ ts) (some d) = iteration ts (tick t d)

-- rpmostreed_daemon_run_until_idle_exit: `running` is tested before each iteration.
unfoldable pub run_loop : List (List Tick) → Option Daemon → Option Daemon
run_loop batches none = none
run_loop [] (some d) = some d
run_loop (ts ∷ batches) (some d) =
    let next = run_loop batches (iteration ts (some d)) in if d.running then next else some d

unfoldable pub run_until_idle_exit : List (List Tick) → Daemon → Option Daemon
unfolding run_loop
run_until_idle_exit batches d = run_loop batches (update_status (record d { running = true }))
