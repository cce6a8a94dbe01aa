-- ===== src/Daemon/Sysroot.antt =====
-- The transaction slot of src/daemon/rpmostreed-sysroot.cxx: who holds it, when a client joins it,
-- and the timer that closes a finished transaction whose clients stay connected.
use rpm_ostree.Prelude.{
  ℕ, suc, Bool, false, not, ◌&&◌, Option, none, some, [], ltb, ◌==◌, is_some, if◌then◌else◌,
}
use rpm_ostree.Prelude.Text.{Text, text_eq}
use rpm_ostree.Daemon.Objects.{Invocation, Transaction, World, put, assert, same_id, ◌>>=◌}

-- rpmostreed_transaction_is_compatible
unfoldable pub is_compatible : Transaction → Invocation → Bool
is_compatible t inv =
    text_eq t.invocation.method_name inv.method_name
    && text_eq t.invocation.parameters inv.parameters

-- What rpmostreed_sysroot_prep_for_txn answers.
pub data Prep : Type 0 where
  reboot_initiated : Prep
  busy : Text → Prep
  join : ℕ → Prep
  fresh : Prep

unfoldable pub prep_slot : World → Invocation → Option ℕ → Prep
prep_slot w inv none = fresh
prep_slot w inv (some id) = elim (w.objects id) [
  | none ↦ fresh
  | some t ↦ if is_compatible t inv then join id else busy t.title
]

-- rpmostreed_sysroot_prep_for_txn
unfoldable pub prep_for_txn : World → Invocation → Prep
unfolding prep_slot
prep_for_txn w inv = if w.rebooting then reboot_initiated else prep_slot w inv w.transaction

-- rpmostreed_sysroot_has_txn
abbrev pub has_txn : World → Bool
has_txn w = is_some w.transaction

clear_timer : World → World
clear_timer w =
    if ltb 0 w.close_transaction_timeout_id
    then record w { close_transaction_timeout_id = 0 }
    else w

publish_active : ℕ → Option Transaction → World → World
publish_active id none w = w
publish_active id (some t) w = record w {
  active_transaction = (t.invocation.method_name, t.invocation.sender, t.invocation.object_path);
}

-- rpmostreed_sysroot_set_txn
unfoldable pub set_txn : Option ℕ → World → Option World
unfolding clear_timer publish_active
set_txn (some id) w =
    let w' = clear_timer w in
    assert (not (has_txn w'))
      (some (publish_active id (w'.objects id) (record w' { transaction = some id })))
set_txn none w =
    let w' = clear_timer w in
    assert (has_txn w') (some (record w' { transaction = none; active_transaction = ([], [], []) }))

-- rpmostreed_sysroot_set_txn_and_title
unfoldable pub set_txn_and_title : ℕ → Text → World → Option World
unfolding set_txn
set_txn_and_title id title w = elim (w.objects id) [
  | none ↦ none
  | some t ↦ set_txn (some id) (put id (record t { title = title }) w)
]

-- rpmostreed_sysroot_finish_txn
unfoldable pub finish_txn : ℕ → World → Option World
unfolding set_txn
finish_txn id w = assert (same_id w.transaction id) (set_txn none w)

-- on_txn_executed_changed
unfoldable pub on_txn_executed_changed : Bool → World → World
on_txn_executed_changed executed w =
    if executed && (w.close_transaction_timeout_id == 0)
    then record w {
      close_transaction_timeout_id = suc w.next_source;
      next_source = suc w.next_source;
    }
    else w

-- rpmostreed_transaction_force_close
unfoldable pub force_close : ℕ → World → Option World
force_close id w = elim (w.objects id) [
  | none ↦ none
  | some t ↦
      assert t.executed (some (put id (record t { serving = false; peer_connections = [] }) w))
]

-- on_force_close
unfoldable pub on_force_close : World → Option World
unfolding force_close set_txn
on_force_close w = elim w.transaction [
  | none ↦ some w
  | some id ↦ force_close id w >>= set_txn none
]
