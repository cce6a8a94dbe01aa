-- ===== src/Daemon/Events.antt =====
-- The main loop: each event is one dispatch of a D-Bus call, a signal or a timer. An event that
-- names an object which is gone, or whose source is not armed, finds no handler.
use rpm_ostree.Prelude.{
  ℕ, Bool, true, Option, none, some, List, [], ◌∷◌, ltb, ◌==◌, any, if◌then◌else◌,
}
use rpm_ostree.Prelude.Text.{Text}
use rpm_ostree.Daemon.Objects.{Invocation, Transaction, World, ◌>>=◌}
use rpm_ostree.Daemon.Sysroot.{on_force_close}
use rpm_ostree.Daemon.Transaction.{
  TaskResult, connection_closed_cb, new_connection_cb, owner_vanished_cb, handle_cancel,
  handle_start, execute_done_cb,
}
use rpm_ostree.Daemon.Lifecycle.{InitEnv, request, collect}

pub data Event : Type 0 where
  method_call : Invocation → Bool → InitEnv → Text → Event
  connection_opened : ℕ → ℕ → Bool → Event
  connection_closed : ℕ → ℕ → Event
  owner_vanished : ℕ → Event
  cancel_called start_called : ℕ → ℕ → Event
  task_done : ℕ → TaskResult → Option Text → Event
  close_timeout : Event
  reboot_requested : Event

abbrev pub connected : ℕ → Transaction → Bool
connected c t = any (λ d. c == d) t.peer_connections

-- Run a handler of the object `id`, then let go of the reference that the dispatch held.
abbrev pub dispatch :
    ℕ → (Transaction → Bool) → (Transaction → World → Option World) → World → Option World
dispatch id armed handler w = elim (w.objects id) [
  | none ↦ some w
  | some t ↦ if armed t then handler t w >>= (λ w'. some (collect id w')) else some w
]

abbrev pub collect_slot : Option ℕ → World → World
collect_slot none w = w
collect_slot (some id) w = collect id w

unfoldable pub step : Event → World → Option World
unfolding request
step (method_call inv loaded env title) w = request inv loaded env title w
step (connection_opened id c exported) w =
    dispatch id (λ t. t.serving) (new_connection_cb id c exported) w
step (connection_closed id c) w = dispatch id (connected c) (connection_closed_cb id c) w
step (owner_vanished id) w = dispatch id (λ t. ltb 0 t.watch_id) (owner_vanished_cb id) w
step (cancel_called id c) w = dispatch id (connected c) (handle_cancel id) w
step (start_called id c) w = dispatch id (connected c) (handle_start id c) w
step (task_done id result reload) w = dispatch id (λ t. t.task) (execute_done_cb id result reload) w
step close_timeout w =
    if ltb 0 w.close_transaction_timeout_id
    then on_force_close w >>= (λ w'. some (collect_slot w.transaction w'))
    else some w
step reboot_requested w = some (record w { rebooting = true })

unfoldable pub run : List Event → World → Option World
unfolding step
run [] w = some w
run (e ∷ es) w = step e w >>= run es
