-- ===== src/Daemon/Safety.antt =====
-- Whatever the main loop dispatches, the assertions of src/daemon/rpmostreed-transaction.cxx and of
-- the slot in src/daemon/rpmostreed-sysroot.cxx hold.
use rpm_ostree.Prelude.{
  ℕ, ◌<◌, ◌≡◌, refl, ◌≢◌, inl, inr, Bool, true, false, Option, none, some, List, [], ◌∷◌, ltb,
  arith, Option-cases, Bool-cases, sym, subst,
}
use native.Mathlib.Decide.{ℕ_discrete}
use rpm_ostree.Daemon.Objects.{Transaction, World, boot, update, ◌>>=◌}
use rpm_ostree.Daemon.Sysroot.{on_force_close}
use rpm_ostree.Daemon.Transaction.{
  new_connection_cb, connection_closed_cb, owner_vanished_cb, handle_cancel, handle_start,
  execute_done_cb,
}
use rpm_ostree.Daemon.Lifecycle.{collect}
use rpm_ostree.Daemon.Events.{
  Event, method_call, connection_opened, connection_closed, owner_vanished, cancel_called,
  start_called, task_done, close_timeout, reboot_requested, collect_slot, dispatch, step, run,
}
use rpm_ostree.Daemon.Invariant.{
  IsSound, Inv, Slot, Holds, caller, Ends, Idle, collect-Inv, boot-Inv, update_self,
}
use rpm_ostree.Daemon.Preserve
use rpm_ostree.Daemon.Start.{Safe, request-Inv}

-- A handler that keeps the slot in order may be dispatched.
settled : (id : ℕ) (o : Option World) → Ends id o → Safe (o >>= (λ w'. some (collect id w')))
settled id none e = e
settled id (some w') e = collect-Inv id w' e

abbrev Handles : ℕ → (Transaction → Bool) → (Transaction → World → Option World) → World → Type 0
Handles id armed handler w =
    (t : Transaction)
    → w.transaction ≡ some id
    → w.objects id ≡ some t
    → armed t ≡ true
    → IsSound w.close_transaction_timeout_id t
    → w.active_transaction ≡ caller t
    → ((i : ℕ) → id ≢ i → w.objects i ≡ none)
    → Ends id (handler t w)

pub found-Slot :
    (w : World) (id : ℕ) (t : Transaction) (o : Option ℕ)
    → Slot w o
    → w.objects id ≡ some t
    → (o ≡ some id) × Slot w (some id)
found-Slot w id t none s e = cc (s.2 id)
found-Slot w id t (some k) s e = elim (ℕ_discrete k id) [
  | yes p ↦ (cc, subst (λ i. Slot w (some i)) p s)
  | no p ↦ cc (s.1 id p)
]

dispatch-Inv :
    (id : ℕ) (armed : Transaction → Bool) (handler : Transaction → World → Option World) (w : World)
    → Inv w
    → Handles id armed handler w
    → Safe (dispatch id armed handler w)
dispatch-Inv id armed handler w v h = elim (Option-cases (w.objects id)) [
  | inl e ↦ rw (e, Safe) v
  | inr (t, e) ↦ elim (Bool-cases (armed t)) [
    | inl a ↦
        let (held, s) = found-Slot w id t w.transaction v.slot e in
        let sound : Holds w (some t) = subst (Holds w) e s.0 in
        rw (e, a, Safe) (settled id (handler t w) (h t held e a sound.0 sound.1 s.1))
    | inr a ↦ rw (e, a, Safe) v
  ]
]

-- The timer runs only for a finished transaction, so the assertion of force_close holds.
pub on_force_close-eq :
    (w : World) (id : ℕ) (t : Transaction)
    → w.transaction ≡ some id
    → w.objects id ≡ some t
    → t.executed ≡ true
    → on_force_close w
      ≡ some (record w {
        objects = update w.objects id (some (record t { serving = false; peer_connections = [] }));
        close_transaction_timeout_id = 0;
        transaction = none;
        active_transaction = ([], [], []);
      })
unfolding on_force_close
on_force_close-eq w id t held e done = ground arith

update_other :
    (f : ℕ → Option Transaction) (id : ℕ) (o : Option Transaction)
    → ((i : ℕ) → id ≢ i → f i ≡ none)
    → (i : ℕ) → id ≢ i
    → update f id o i ≡ none
update_other f id o h i n = ground (arith, h i)

on_force_close-Ends :
    (w : World) (id : ℕ) (t : Transaction)
    → w.transaction ≡ some id
    → w.objects id ≡ some t
    → IsSound w.close_transaction_timeout_id t
    → ((i : ℕ) → id ≢ i → w.objects i ≡ none)
    → 0 < w.close_transaction_timeout_id
    → Ends id (on_force_close w)
on_force_close-Ends w id t held e sound others h =
    let t' : Transaction = record t { serving = false; peer_connections = [] } in
    subst (Ends id) (sym (on_force_close-eq w id t held e (ground arith))) (
      inr (record {
        free = refl;
        timer = refl;
        blank = refl;
        idle = subst Idle (sym (update_self w.objects id (some t'))) (ground arith);
        others = update_other w.objects id (some t') others;
      }))

close_slot :
    (w : World) (o : Option ℕ)
    → w.transaction ≡ o
    → Slot w o
    → 0 < w.close_transaction_timeout_id
    → Safe (on_force_close w >>= (λ w'. some (collect_slot o w')))
close_slot w none e s h = absurd (omega (arith, s.0))
close_slot w (some id) e s h = elim (Option-cases (w.objects id)) [
  | inl p ↦ absurd (subst (Holds w) p s.0)
  | inr (t, p) ↦
      let sound : Holds w (some t) = subst (Holds w) p s.0 in
      settled id (on_force_close w) (on_force_close-Ends w id t e p sound.0 s.1 h)
]

close_timeout-Inv : (w : World) → Inv w → Safe (step close_timeout w)
unfolding step
close_timeout-Inv w v = elim (Bool-cases (ltb 0 w.close_transaction_timeout_id)) [
  | inl e ↦ rw (e, Safe) (close_slot w w.transaction refl v.slot (ground arith))
  | inr e ↦ rw (e, Safe) v
]

Holds-reboot :
    (w : World) (o : Option Transaction) → Holds w o → Holds (record w { rebooting = true }) o
Holds-reboot w none h = h
Holds-reboot w (some t) h = h

Slot-reboot : (w : World) (o : Option ℕ) → Slot w o → Slot (record w { rebooting = true }) o
Slot-reboot w none s = s
Slot-reboot w (some id) s = (Holds-reboot w (w.objects id) s.0, s.1)

pub step-Inv : (e : Event) (w : World) → Inv w → Safe (step e w)
unfolding step
step-Inv (method_call inv loaded env title) w v = request-Inv inv loaded env title w v
step-Inv (connection_opened id c exported) w v =
    dispatch-Inv id _ (new_connection_cb id c exported) w v
      λ t held e a s n o. Preserve.new_connection_cb-Ends id t w held s n o c exported e
step-Inv (connection_closed id c) w v =
    dispatch-Inv id _ (connection_closed_cb id c) w v
      λ t held e a s n o. Preserve.connection_closed_cb-Ends id t w held s n o c
step-Inv (owner_vanished id) w v =
    dispatch-Inv id _ (owner_vanished_cb id) w v
      λ t held e a s n o. Preserve.owner_vanished_cb-Ends id t w held s n o e
step-Inv (cancel_called id c) w v =
    dispatch-Inv id _ (handle_cancel id) w v
      λ t held e a s n o. Preserve.handle_cancel-Ends id t w held s n o
step-Inv (start_called id c) w v =
    dispatch-Inv id _ (handle_start id c) w v
      λ t held e a s n o. Preserve.handle_start-Ends id t w held s n o c
step-Inv (task_done id result reload) w v =
    dispatch-Inv id _ (execute_done_cb id result reload) w v
      λ t held e a s n o. Preserve.execute_done_cb-Ends id t w held s n o result reload a
step-Inv close_timeout w v = close_timeout-Inv w v
step-Inv reboot_requested w v = record { slot = Slot-reboot w w.transaction v.slot }

after :
    (o : Option World) (k : World → Option World)
    → Safe o
    → ((w : World) → Inv w → Safe (k w))
    → Safe (o >>= k)
after none k v h = v
after (some w) k v h = h w v

pub run-Inv : (es : List Event) (w : World) → Inv w → Safe (run es w)
unfolding run
run-Inv [] w v = v
run-Inv (e ∷ es) w v = after (step e w) (run es) (step-Inv e w v) (run-Inv es)

-- From the daemon's start, no sequence of events fails an assertion of a transaction or of the slot,
-- and after each sequence: the slot names the only live transaction, D-Bus shows its caller, it
-- waits, runs or has finished, holds the sysroot lock just until it has finished, and a finished
-- one stays only while a client is connected and the closing timer is armed.
pub run-boot-Inv : (es : List Event) → Safe (run es boot)
run-boot-Inv es = run-Inv es boot boot-Inv
