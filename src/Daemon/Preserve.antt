-- ===== src/Daemon/Preserve.antt =====
-- Each handler of src/daemon/rpmostreed-transaction.cxx keeps the invariant and passes its
-- assertions.
use rpm_ostree.Prelude.{
  ℕ, ◌≡◌, refl, ◌≢◌, inl, inr, Bool, true, false, Option, none, some, [], ltb, arith, Bool-cases,
  subst, sym, not, ◌||◌, ◌&&◌, suc, ==_iff,
}
use rpm_ostree.Prelude.Text.{Text}
use rpm_ostree.Daemon.Objects.{Transaction, World, update, put, emit, closed, finished}
use rpm_ostree.Daemon.Sysroot.{finish_txn, on_txn_executed_changed}
use rpm_ostree.Daemon.Transaction.{
  TaskResult, get_active, is_empty, maybe_emit_closed, remove, insert, connection_closed_cb,
  new_connection_cb, owner_vanished_cb, handle_cancel, start, handle_start, execute_done_cb,
  outcome, unlock_sysroot,
}
use rpm_ostree.Daemon.Invariant.{IsSound, Idle, caller, Kept, Ends, Holds-object, update_self}

-- The object `t` in the slot, as a handler finds it.
module _ (id : ℕ) (t : Transaction) (w : World) (held : w.transaction ≡ some id)
    (sound : IsSound w.close_transaction_timeout_id t) (active : w.active_transaction ≡ caller t)
    (others : (i : ℕ) → id ≢ i → w.objects i ≡ none) where
  others-update : (o : Option Transaction) (i : ℕ) → id ≢ i → update w.objects id o i ≡ none
  others-update o i n = ground (arith, others i n)

  object_at :
      (w' : World) (t' : Transaction)
      → w'.objects ≡ update w.objects id (some t')
      → w'.objects id ≡ some t'
  object_at w' t' objects = rw objects (update_self w.objects id (some t'))

  -- The slot with the object written anew, under a world that differs in it and in the timer.
  kept :
      (w' : World) (t' : Transaction)
      → w'.transaction ≡ some id
      → w'.objects ≡ update w.objects id (some t')
      → w'.active_transaction ≡ caller t'
      → IsSound w'.close_transaction_timeout_id t'
      → Kept id w'
  kept w' t' slot objects a s = record {
    held = slot;
    slot = (
      Holds-object w' (w'.objects id) t' (object_at w' t' objects) s a,
      λ i n. rw objects (others-update (some t') i n),
    );
  }

  pub handle_cancel-Ends : Ends id (handle_cancel id t w)
  unfolding handle_cancel
  handle_cancel-Ends = inl (kept _ (record t { cancelled = true }) held refl active (ground arith))

  start-IsSound :
      (b : Bool) → ltb 0 t.watch_id ≡ b → IsSound w.close_transaction_timeout_id (start b t)
  start-IsSound true e = ground arith
  start-IsSound false e = sound

  caller-start : (b : Bool) → w.active_transaction ≡ caller (start b t)
  caller-start true = active
  caller-start false = active

  pub handle_start-Ends : (c : ℕ) → Ends id (handle_start id c t w)
  unfolding handle_start
  handle_start-Ends c =
      inl (kept _ (start (ltb 0 t.watch_id) t) held refl (caller-start _) (start-IsSound _ refl))

  pub new_connection_cb-Ends :
      (c : ℕ) (exported : Bool)
      → w.objects id ≡ some t
      → Ends id (new_connection_cb id c exported t w)
  unfolding new_connection_cb insert
  new_connection_cb-Ends c true o = inl (
      kept _ (record t { peer_connections = insert c t.peer_connections }) held refl active
        (ground arith))
  new_connection_cb-Ends c false o =
      inl (record { held = held; slot = (Holds-object w _ t o sound active, others) })

  finish_txn-eq :
      (w' : World)
      → w'.transaction ≡ some id
      → finish_txn id w'
        ≡ some (record w' {
          close_transaction_timeout_id = 0;
          transaction = none;
          active_transaction = ([], [], []);
        })
  unfolding finish_txn
  finish_txn-eq w' e = ground (arith, ==_iff id id)

  finish_txn-Ends :
      (w' : World) (t' : Transaction)
      → w'.transaction ≡ some id
      → w'.objects ≡ update w.objects id (some t')
      → t'.task ≡ false
      → Ends id (finish_txn id w')
  finish_txn-Ends w' t' slot objects idle = rw (finish_txn-eq w' slot) (
      inr (record {
        free = refl;
        timer = refl;
        blank = refl;
        idle = subst Idle (sym (object_at w' t' objects)) idle;
        others = λ i n. rw objects (others-update (some t') i n);
      }))

  -- `t'` may stay if it is active, or if a client is connected.
  settle :
      (w' : World) (t' : Transaction)
      → w'.transaction ≡ some id
      → w'.objects ≡ update w.objects id (some t')
      → w'.active_transaction ≡ caller t'
      → (get_active t' ≡ false → t'.task ≡ false)
      → (get_active t' || not (is_empty t'.peer_connections) ≡ true
          → IsSound w'.close_transaction_timeout_id t')
      → Ends id (maybe_emit_closed id t' w')
  unfolding maybe_emit_closed
  settle w' t' slot objects a idle s = elim (Bool-cases (get_active t')) [
    | inl e ↦ rw (e, maybe_emit_closed) (inl (kept w' t' slot objects a (s (rw e))))
    | inr e ↦ elim (Bool-cases (is_empty t'.peer_connections)) [
      | inl p ↦ rw (e, p) (finish_txn-Ends (emit (closed id) w') t' slot objects (idle e))
      | inr p ↦ rw (e, p) (inl (kept w' t' slot objects a (s (rw (e, p)))))
    ]
  ]

  pub connection_closed_cb-Ends : (c : ℕ) → Ends id (connection_closed_cb id c t w)
  unfolding connection_closed_cb
  connection_closed_cb-Ends c =
      settle _ (record t { peer_connections = remove c t.peer_connections }) held refl active
        (ground arith) (ground arith)

  pub owner_vanished_cb-Ends : w.objects id ≡ some t → Ends id (owner_vanished_cb id t w)
  unfolding owner_vanished_cb
  owner_vanished_cb-Ends o = elim (Bool-cases (ltb 0 t.watch_id)) [
    | inl e ↦
        rw (e, owner_vanished_cb)
          (finish_txn-Ends _ (record t { watch_id = 0 }) held refl (ground arith))
    | inr e ↦
        rw e (inl (record { held = held; slot = (Holds-object w _ t o sound active, others) }))
  ]

  -- The object when its task has reported.
  done : Bool × Text → Transaction
  done params = record t {
    finished_params = some params;
    executed = true;
    task = false;
    sysroot_locked = t.sysroot_locked && not t.sysroot;
  }

  unlock_sysroot-done :
      (params : Bool × Text)
      → unlock_sysroot (record t { finished_params = some params; executed = true; task = false })
        ≡ done params
  unfolding done unlock_sysroot
  unlock_sysroot-done params = ground arith

  arm_timer :
      (w' : World)
      → w'.close_transaction_timeout_id ≡ 0
      → on_txn_executed_changed true w' ≡ record w' {
        close_transaction_timeout_id = suc w'.next_source;
        next_source = suc w'.next_source;
      }
  unfolding on_txn_executed_changed
  arm_timer w' e = ground arith

  done-IsSound :
      (params : Bool × Text) (n : ℕ)
      → t.task ≡ true
      → is_empty t.peer_connections ≡ false
      → IsSound (suc n) (done params)
  unfolding done
  done-IsSound params n running connected = ground arith

  pub execute_done_cb-Ends :
      (result : TaskResult) (reload : Option Text)
      → t.task ≡ true
      → Ends id (execute_done_cb id result reload t w)
  unfolding execute_done_cb done
  execute_done_cb-Ends result reload running =
      let params = outcome result reload in
      let told : World = emit (finished id params.0 params.1) (put id (done params) w) in
      rw (unlock_sysroot-done params, arm_timer told (ground arith))
        (settle _ (done params) held refl active (λ _. refl)
          λ s. done-IsSound params w.next_source running (ground arith))
