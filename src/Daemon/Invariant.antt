-- ===== src/Daemon/Invariant.antt =====
-- What holds of the slot of src/daemon/rpmostreed-sysroot.cxx and of the transaction object in it
-- (src/daemon/rpmostreed-transaction.cxx) between two events of the main loop.
use rpm_ostree.Prelude.{
  ℕ, ◌<◌, ◌≡◌, refl, ◌≢◌, ◌⊎◌, inl, inr, true, false, Option, none, some, [], is_some, arith, sym,
  subst, Option-cases, ==_iff,
}
use rpm_ostree.Prelude.Text.{Text}
use rpm_ostree.Daemon.Objects.{Transaction, World, update, boot}
use rpm_ostree.Daemon.Transaction.{is_empty}
use rpm_ostree.Daemon.Lifecycle.{collect}

-- A transaction waits for Start(), runs, or has finished.
abbrev pub Phase : Transaction → Type 0
Phase t =
    ((0 < t.watch_id) × (t.task ≡ false) × (t.executed ≡ false))
    ⊎ ((t.watch_id ≡ 0) × (t.task ≡ true) × (t.executed ≡ false))
    ⊎ ((t.watch_id ≡ 0) × (t.task ≡ false) × (t.executed ≡ true))

-- The object in the slot: its flags agree, it holds the sysroot lock until it has finished, and a
-- finished one stays only while a client is connected, with the timer armed.
pub record IsSound (timeout : ℕ) (t : Transaction) : Type 0 where
  pub flags : t.executed ≡ is_some t.finished_params
  pub phase : Phase t
  pub locked : t.executed ≡ false → t.sysroot_locked ≡ t.sysroot
  pub unlocked : t.executed ≡ true → t.sysroot_locked ≡ false
  pub quiet : t.executed ≡ false → timeout ≡ 0
  pub armed : t.executed ≡ true → (0 < timeout) × (is_empty t.peer_connections ≡ false)
  pub serving : t.serving ≡ true

abbrev pub caller : Transaction → Text × Text × Text
caller t = (t.invocation.method_name, t.invocation.sender, t.invocation.object_path)

abbrev pub Holds : World → Option Transaction → Type 0
Holds w none = ⊥
Holds w (some t) = IsSound w.close_transaction_timeout_id t × (w.active_transaction ≡ caller t)

abbrev pub Slot : World → Option ℕ → Type 0
Slot w none =
    (w.close_transaction_timeout_id ≡ 0)
    × (w.active_transaction ≡ ([], [], []))
    × ((i : ℕ) → w.objects i ≡ none)
Slot w (some id) = Holds w (w.objects id) × ((i : ℕ) → id ≢ i → w.objects i ≡ none)

-- The slot names the only live transaction, and D-Bus shows that one as active.
pub record Inv (w : World) : Type 0 where
  pub slot : Slot w w.transaction

pub boot-Inv : Inv boot
boot-Inv = record { slot = (refl, refl, λ _. refl) }

-- A handler leaves the object in the slot, or takes it out when no task needs it.
abbrev pub Idle : Option Transaction → Type 0
Idle none = ⊥
Idle (some t) = t.task ≡ false

pub record Kept (id : ℕ) (w : World) : Type 0 where
  pub held : w.transaction ≡ some id
  pub slot : Slot w (some id)

pub record Dropped (id : ℕ) (w : World) : Type 0 where
  pub free : w.transaction ≡ none
  pub timer : w.close_transaction_timeout_id ≡ 0
  pub blank : w.active_transaction ≡ ([], [], [])
  pub idle : Idle (w.objects id)
  pub others : (i : ℕ) → id ≢ i → w.objects i ≡ none

abbrev pub Ends : ℕ → Option World → Type 0
Ends id none = ⊥
Ends id (some w) = Kept id w ⊎ Dropped id w

pub Holds-object :
    (w : World) (o : Option Transaction) (t : Transaction)
    → o ≡ some t
    → IsSound w.close_transaction_timeout_id t
    → w.active_transaction ≡ caller t
    → Holds w o
Holds-object w o t e sound active = subst (Holds w) (sym e) (sound, active)

pub update_self :
    (f : ℕ → Option Transaction) (id : ℕ) (o : Option Transaction) → update f id o id ≡ o
update_self f id o = ground (arith, ==_iff id id)

pub Kept-Inv : {id : ℕ} {w : World} → Kept id w → Inv w
Kept-Inv {id} {w} k = record { slot = subst (Slot w) (sym k.held) k.slot }

collect-Kept : (id : ℕ) (w : World) → Kept id w → collect id w ≡ w
unfolding collect
collect-Kept id w k = ground (arith, ==_iff id id)

pub empty-Inv : (w : World) → w.transaction ≡ none → Slot w none → Inv w
empty-Inv w e s = record { slot = subst (Slot w) (sym e) s }

pub collect_idle :
    (id : ℕ) (w : World) (t : Transaction)
    → w.objects id ≡ some t
    → t.task ≡ false
    → w.transaction ≡ none
    → collect id w ≡ record w { objects = update w.objects id none }
unfolding collect
collect_idle id w t o idle e = ground arith

update-none :
    (f : ℕ → Option Transaction) (id : ℕ)
    → ((i : ℕ) → id ≢ i → f i ≡ none)
    → (i : ℕ) → update f id none i ≡ none
update-none f id h i = ground (arith, h i)

collect-Dropped : (id : ℕ) (w : World) → Dropped id w → Inv (collect id w)
collect-Dropped id w d = elim (Option-cases (w.objects id)) [
  | inl o ↦ absurd (subst Idle o d.idle)
  | inr (t, o) ↦
      rw (collect_idle id w t o (subst Idle o d.idle) d.free)
        (empty-Inv _ d.free (d.timer, d.blank, update-none w.objects id d.others))
]

-- Once the handler is done and its reference is gone, the invariant holds again.
pub collect-Inv : (id : ℕ) (w : World) → Kept id w ⊎ Dropped id w → Inv (collect id w)
collect-Inv id w (inl k) = rw (collect-Kept id w k) (Kept-Inv k)
collect-Inv id w (inr d) = collect-Dropped id w d
