-- ===== src/Daemon/Progress.antt =====
-- How the slot of src/daemon/rpmostreed-sysroot.cxx becomes free, and what clients are told:
-- transaction_execute_thread and transaction_execute_done_cb of
-- src/daemon/rpmostreed-transaction.cxx.
use rpm_ostree.Prelude.{
  ℕ, ◌<◌, ◌≡◌, refl, ◌⊎◌, ◌↔◌, inl, inr, true, false, Option, none, some, [], arith, Option-cases,
  subst,
}
use rpm_ostree.Prelude.Text.{Text, text_eq_iff}
use rpm_ostree.Daemon.Objects.{Invocation, Transaction, World, update}
use rpm_ostree.Daemon.Sysroot.{on_force_close, join, fresh, prep_for_txn, prep_slot, is_compatible}
use rpm_ostree.Daemon.Transaction.{Execution, returned, execute_thread, outcome}
use rpm_ostree.Daemon.Lifecycle.{collect}
use rpm_ostree.Daemon.Events.{close_timeout, step}
use rpm_ostree.Daemon.Invariant.{Inv, Slot, Holds, collect_idle, update_self}
use rpm_ostree.Daemon.Safety.{on_force_close-eq}

-- Success is reported exactly when the failpoint let the thread pass, execute returned TRUE with no
-- error (or there is no execute method), and the sysroot reloaded.
outcome-execute_thread :
    (failpoint : Option Text) (execute : Option Execution) (reload : Option Text)
    → ((outcome (execute_thread failpoint execute) reload).0 ≡ true) ↔ (
        (failpoint ≡ none)
        × ((execute ≡ none) ⊎ (execute ≡ some (returned true none)))
        × (reload ≡ none))
unfolding outcome execute_thread
outcome-execute_thread failpoint execute reload = ground arith

fresh-Slot :
    (w : World) (inv : Invocation) (o : Option ℕ)
    → Slot w o
    → (prep_slot w inv o ≡ fresh) ↔ (o ≡ none)
unfolding prep_slot
fresh-Slot w inv none s = (λ _. refl, λ _. refl)
fresh-Slot w inv (some id) s = elim (Option-cases (w.objects id)) [
  | inl e ↦ absurd (subst (Holds w) e s.0)
  | inr (t, e) ↦ ground arith
]

-- In a state that the daemon reaches, a client may start a transaction exactly when no reboot is
-- initiated and the slot is free.
prep_for_txn-fresh :
    (w : World) (inv : Invocation)
    → Inv w
    → (prep_for_txn w inv ≡ fresh) ↔ ((w.rebooting ≡ false) × (w.transaction ≡ none))
unfolding prep_for_txn
prep_for_txn-fresh w inv v = ground (arith, fresh-Slot w inv w.transaction v.slot)

-- A client joins the transaction in the slot exactly when no reboot is initiated and it calls the
-- same method with the same parameters.
prep_for_txn-join :
    (w : World) (inv : Invocation) (id : ℕ) (t : Transaction)
    → w.transaction ≡ some id
    → w.objects id ≡ some t
    → (prep_for_txn w inv ≡ join id) ↔ (
        (w.rebooting ≡ false)
        × (t.invocation.method_name ≡ inv.method_name)
        × (t.invocation.parameters ≡ inv.parameters))
unfolding prep_for_txn prep_slot is_compatible
prep_for_txn-join w inv id t held e = ground (
  arith,
  text_eq_iff t.invocation.method_name inv.method_name,
  text_eq_iff t.invocation.parameters inv.parameters,
)

-- The slot is free and `id` is finalized.
abbrev pub Freed : ℕ → Option World → Type 0
Freed id none = ⊥
Freed id (some w) =
    (w.transaction ≡ none) × (w.objects id ≡ none) × (w.close_transaction_timeout_id ≡ 0)

-- The world that on_force_close leaves, before the object is finalized.
closed_world : ℕ → Transaction → World → World
closed_world id t w = record w {
  objects = update w.objects id (some (record t { serving = false; peer_connections = [] }));
  close_transaction_timeout_id = 0;
  transaction = none;
  active_transaction = ([], [], []);
}

close_timeout-eq :
    (w : World) (id : ℕ) (t : Transaction)
    → w.transaction ≡ some id
    → on_force_close w ≡ some (closed_world id t w)
    → 0 < w.close_transaction_timeout_id
    → step close_timeout w ≡ some (collect id (closed_world id t w))
unfolding step
close_timeout-eq w id t held e h = ground arith

freed :
    (w : World) (id : ℕ) (t : Transaction)
    → w.transaction ≡ some id
    → w.objects id ≡ some t
    → 0 < w.close_transaction_timeout_id
    → t.executed ≡ true
    → t.task ≡ false
    → Freed id (step close_timeout w)
unfolding closed_world
freed w id t held p h done idle =
    let t' : Transaction = record t { serving = false; peer_connections = [] } in
    let w' = closed_world id t w in
    rw
      (
        close_timeout-eq w id t held (on_force_close-eq w id t held p done) h,
        collect_idle id w' t' (update_self w.objects id (some t')) idle refl,
      )
      (refl, update_self w'.objects id none, refl)

-- When the closing timer fires, the finished transaction is closed and finalized, and the slot is
-- free, whatever clients stay connected.
pub close_timeout-frees :
    (w : World) (id : ℕ)
    → Inv w
    → w.transaction ≡ some id
    → 0 < w.close_transaction_timeout_id
    → Freed id (step close_timeout w)
close_timeout-frees w id v held h =
    let s : Slot w (some id) = subst (Slot w) held v.slot in
    elim (Option-cases (w.objects id)) [
      | inl p ↦ absurd (subst (Holds w) p s.0)
      | inr (t, p) ↦
          let sound : Holds w (some t) = subst (Holds w) p s.0 in
          freed w id t held p h (ground arith) (ground arith)
    ]
