-- ===== src/Daemon/Objects.antt =====
-- The daemon's shared objects: struct _RpmostreedTransactionPrivate
-- (src/daemon/rpmostreed-transaction.cxx), the transaction slot of struct _RpmostreedSysroot
-- (src/daemon/rpmostreed-sysroot.cxx), and the store of live GObjects that both point into.
use rpm_ostree.Prelude.{
  ℕ, Bool, true, false, Option, none, some, List, [], ◌∷◌, ◌==◌, if◌then◌else◌,
}
use rpm_ostree.Prelude.Text.{Text}

-- GDBusMethodInvocation; `parameters` is the serialised GVariant.
pub record Invocation : Type 0 where
  pub method_name : Text
  pub sender : Text
  pub object_path : Text
  pub parameters : Text

-- `sysroot` says whether priv->sysroot is set, `serving` whether priv->server accepts
-- connections, and `task` whether a GTask for the worker thread is still pending.
pub record Transaction : Type 0 where
  pub invocation : Invocation
  pub executed : Bool
  pub cancelled : Bool
  pub sysroot : Bool
  pub sysroot_locked : Bool
  pub watch_id : ℕ
  pub serving : Bool
  pub peer_connections : List ℕ
  pub finished_params : Option (Bool × Text)
  pub task : Bool
  pub title : Text

-- What clients see: `start_reply` is the reply to Start(), `finished_again` the Finished signal
-- sent to one late connection.
pub data Signal : Type 0 where
  finished : ℕ → Bool → Text → Signal
  finished_again : ℕ → ℕ → Bool × Text → Signal
  closed : ℕ → Signal
  start_reply : ℕ → ℕ → Bool → Signal

-- A transaction object is named by a number, and `objects` holds those not yet finalized.
-- `emitted` has the newest signal first.
pub record World : Type 0 where
  pub rebooting : Bool
  pub transaction : Option ℕ
  pub close_transaction_timeout_id : ℕ
  pub active_transaction : Text × Text × Text
  pub objects : ℕ → Option Transaction
  pub next_id : ℕ
  pub next_source : ℕ
  pub emitted : List Signal

abbrev pub update : (ℕ → Option Transaction) → ℕ → Option Transaction → ℕ → Option Transaction
update f i o j = if i == j then o else f j

abbrev pub put : ℕ → Transaction → World → World
put id t w = record w { objects = update w.objects id (some t) }

abbrev pub emit : Signal → World → World
emit s w = record w { emitted = s ∷ w.emitted }

-- g_assert: a failed assertion aborts the daemon, and has no next state.
abbrev pub assert : Bool → Option World → Option World
assert true k = k
assert false k = none

infixl 5 ◌>>=◌
abbrev pub ◌>>=◌ : Option World → (World → Option World) → Option World
none >>= f = none
some w >>= f = f w

abbrev pub same_id : Option ℕ → ℕ → Bool
same_id none i = false
same_id (some j) i = j == i

-- The state in which the daemon starts.
abbrev pub boot : World
boot = record {
  rebooting = false;
  transaction = none;
  close_transaction_timeout_id = 0;
  active_transaction = ([], [], []);
  objects = λ _. none;
  next_id = 0;
  next_source = 0;
  emitted = [];
}
