-- ===== src/Daemon/Lifecycle.antt =====
-- How a transaction comes to be and goes: rpmostreed_transaction_init, transaction_constructed and
-- transaction_initable_init of src/daemon/rpmostreed-transaction.cxx, the D-Bus methods of
-- src/daemon/rpmostreed-os.cxx that start one, and the loss of the last reference.
use rpm_ostree.Prelude.{ℕ, suc, Bool, true, false, not, Option, none, some, [], if◌then◌else◌}
use rpm_ostree.Prelude.Text.{Text}
use rpm_ostree.Daemon.Objects.{Invocation, Transaction, World, update, put, assert, same_id}
use rpm_ostree.Daemon.Sysroot.{has_txn, Prep, fresh, prep_for_txn, set_txn_and_title}

-- Why transaction_initable_init fails.
pub data InitError : Type 0 where
  unlink_failed server_failed chmod_failed sysroot_failed load_failed failpoint_hit lock_failed
        transaction_in_progress :
      InitError

-- What the system answers to the calls of transaction_initable_init, true for success;
-- `sysroot_path` says whether a path was given, and `lock_acquired` is the output of
-- ostree_sysroot_try_lock.
pub record InitEnv : Type 0 where
  pub unlink_ok : Bool
  pub server_ok : Bool
  pub chmod_ok : Bool
  pub sysroot_path : Bool
  pub initialize_ok : Bool
  pub load_ok : Bool
  pub failpoint_ok : Bool
  pub try_lock_ok : Bool
  pub lock_acquired : Bool

pub data InitResult : Type 0 where
  initialized : Transaction → InitResult
  init_failed : InitError → InitResult

abbrev require : Bool → InitError → InitResult → InitResult
require true e k = k
require false e k = init_failed e

lock_sysroot : InitEnv → Transaction → InitResult
lock_sysroot env t = require env.initialize_ok sysroot_failed (
    require env.load_ok load_failed (
      require env.failpoint_ok failpoint_hit (
        require env.try_lock_ok lock_failed (
          require env.lock_acquired transaction_in_progress
            (initialized (record t { sysroot = true; sysroot_locked = true; serving = true }))))))

-- transaction_initable_init
unfoldable pub initable_init : InitEnv → Transaction → InitResult
unfolding lock_sysroot
initable_init env t = require env.unlink_ok unlink_failed (
    require env.server_ok server_failed (
      require env.chmod_ok chmod_failed (
        if env.sysroot_path
        then lock_sysroot env t
        else initialized (record t { serving = true }))))

-- rpmostreed_transaction_init and transaction_constructed: the fresh object watches its caller.
unfoldable pub constructed : Invocation → ℕ → Transaction
constructed inv watch = record {
  invocation = inv;
  executed = false;
  cancelled = false;
  sysroot = false;
  sysroot_locked = false;
  watch_id = suc watch;
  serving = false;
  peer_connections = [];
  finished_params = none;
  task = false;
  title = [];
}

abbrev pub add_object : InitResult → World → World
add_object (initialized t) w = put w.next_id t (record w { next_id = suc w.next_id })
add_object (init_failed e) w = w

unfoldable pub install : InitResult → Text → World → Option World
install (initialized t) title w = set_txn_and_title w.next_id title (add_object (initialized t) w)
install (init_failed e) title w = some w

-- A new transaction object, put into the slot if its initialisation succeeds. The assertion is the
-- one of rpmostreed_transaction_init.
unfoldable pub new_transaction : Invocation → InitEnv → Text → World → Option World
unfolding install
new_transaction inv env title w = assert (not (has_txn w)) (
    install (initable_init env (constructed inv w.next_source)) title
      (record w { next_source = suc w.next_source }))

unfoldable pub request_prep : Prep → Invocation → Bool → InitEnv → Text → World → Option World
request_prep fresh inv loaded env title w =
    if loaded then new_transaction inv env title w else some w
request_prep _ inv loaded env title w = some w

-- os_handle_download_update_rpm_diff and its siblings: join, refuse, or start; `loaded` is the
-- answer of rpmostreed_sysroot_load_state.
unfoldable pub request : Invocation → Bool → InitEnv → Text → World → Option World
unfolding request_prep
request inv loaded env title w = request_prep (prep_for_txn w inv) inv loaded env title w

holds_reference : ℕ → Transaction → World → Bool
holds_reference id t w = if t.task then true else same_id w.transaction id

collect_object : ℕ → Option Transaction → World → World
unfolding holds_reference
collect_object id none w = w
collect_object id (some t) w =
    if holds_reference id t w then w else record w { objects = update w.objects id none }

-- The slot and a pending GTask hold the references; transaction_dispose and transaction_finalize
-- run when neither does.
unfoldable pub collect : ℕ → World → World
unfolding collect_object
collect id w = collect_object id (w.objects id) w
