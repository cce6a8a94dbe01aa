-- ===== src/Daemon/Transaction.antt =====
-- The handlers of src/daemon/rpmostreed-transaction.cxx. What the worker thread, D-Bus and the
-- file system answer comes in as arguments; a failed g_assert is `none`.
use rpm_ostree.Prelude.{
  ℕ, Bool, true, false, not, ◌&&◌, Option, none, some, List, [], ◌∷◌, ltb, ◌==◌, is_some,
  if◌then◌else◌,
}
use rpm_ostree.Prelude.Text.{Text}
use rpm_ostree.Daemon.Objects.{
  Transaction, World, Signal, finished, finished_again, closed, start_reply, update, put, emit,
}
use rpm_ostree.Daemon.Sysroot.{finish_txn, on_txn_executed_changed}

-- rpmostreed_transaction_get_active
abbrev pub get_active : Transaction → Bool
get_active t = not (is_some t.finished_params)

-- unlock_sysroot
unfoldable pub unlock_sysroot : Transaction → Transaction
unlock_sysroot t =
    if not (t.sysroot && t.sysroot_locked) then t else record t { sysroot_locked = false }

abbrev pub is_empty : List ℕ → Bool
is_empty [] = true
is_empty (c ∷ cs) = false

-- transaction_maybe_emit_closed, for the object `t` named `id`
unfoldable pub maybe_emit_closed : ℕ → Transaction → World → Option World
maybe_emit_closed id t w =
    if get_active t
    then some w
    else if is_empty t.peer_connections
    then finish_txn id (emit (closed id) w)
    else some w

-- g_hash_table_remove and g_hash_table_add on the set of connections
unfoldable pub remove : ℕ → List ℕ → List ℕ
remove c [] = []
remove c (d ∷ ds) = let rest = remove c ds in if c == d then rest else d ∷ rest

unfoldable pub insert : ℕ → List ℕ → List ℕ
unfolding remove
insert c cs = c ∷ remove c cs

-- transaction_connection_closed_cb
unfoldable pub connection_closed_cb : ℕ → ℕ → Transaction → World → Option World
connection_closed_cb id c t w =
    let t' : Transaction = record t { peer_connections = remove c t.peer_connections } in
    maybe_emit_closed id t' (put id t' w)

-- transaction_new_connection_cb; `exported` is the answer of g_dbus_interface_skeleton_export
unfoldable pub new_connection_cb : ℕ → ℕ → Bool → Transaction → World → Option World
new_connection_cb id c exported t w =
    if not exported
    then some w
    else some (put id (record t { peer_connections = insert c t.peer_connections }) w)

-- transaction_owner_vanished_cb
unfoldable pub owner_vanished_cb : ℕ → Transaction → World → Option World
owner_vanished_cb id t w =
    if ltb 0 t.watch_id
    then finish_txn id (emit (closed id) (put id (record t { watch_id = 0 }) w))
    else some w

-- transaction_handle_cancel
unfoldable pub handle_cancel : ℕ → Transaction → World → Option World
handle_cancel id t w = some (put id (record t { cancelled = true }) w)

-- The Finished signal again, to the connection that called Start() after the end.
abbrev resent : ℕ → ℕ → Option (Bool × Text) → List Signal → List Signal
resent id c none log = log
resent id c (some params) log = finished_again id c params ∷ log

-- What Start() makes of the object; `started` is its reply.
abbrev pub start : Bool → Transaction → Transaction
start true t = record t { watch_id = 0; task = true }
start false t = t

-- transaction_handle_start, called over connection `c`
unfoldable pub handle_start : ℕ → ℕ → Transaction → World → Option World
handle_start id c t w =
    let started = ltb 0 t.watch_id in
    some (record w {
      objects = update w.objects id (some (start started t));
      emitted = resent id c t.finished_params (start_reply id c started ∷ w.emitted);
    })

-- What clazz->execute did: it returned, with the GError that it set, or it threw.
pub data Execution : Type 0 where
  returned : Bool → Option Text → Execution
  threw : Text → Execution

-- The result of the GTask.
pub data TaskResult : Type 0 where
  task_error : Text → TaskResult
  task_boolean : Bool → TaskResult

finish_task : Bool → Option Text → TaskResult
finish_task success (some message) = task_error message
finish_task success none = task_boolean success

run_execute : Option Execution → TaskResult
unfolding finish_task
run_execute none = finish_task true none
run_execute (some (returned success error)) = finish_task success error
run_execute (some (threw what)) = finish_task false (some what)

-- transaction_execute_thread: `failpoint` is the exception of the failpoint, and `execute` is
-- `none` where the class has no execute method.
unfoldable pub execute_thread : Option Text → Option Execution → TaskResult
unfolding run_execute finish_task
execute_thread (some what) execute = finish_task false (some what)
execute_thread none execute = run_execute execute

-- The first half of transaction_execute_done_cb: `reload` is the error of
-- rpmostreed_sysroot_reload, if it failed.
unfoldable pub outcome : TaskResult → Option Text → Bool × Text
outcome (task_error message) reload = (false, message)
outcome (task_boolean true) none = (true, [])
outcome (task_boolean true) (some message) = (false, message)
outcome (task_boolean false) reload = (false, [])

-- transaction_execute_done_cb. The task's reference goes when it returns.
unfoldable pub execute_done_cb : ℕ → TaskResult → Option Text → Transaction → World → Option World
execute_done_cb id result reload t w =
    let params = outcome result reload in
    let t' : Transaction =
      unlock_sysroot (record t { finished_params = some params; executed = true; task = false }) in
    maybe_emit_closed id t'
      (on_txn_executed_changed t'.executed (emit (finished id params.0 params.1) (put id t' w)))
