-- ===== src/Daemon/Start.antt =====
-- A D-Bus method that starts a transaction (src/daemon/rpmostreed-os.cxx,
-- transaction_initable_init of src/daemon/rpmostreed-transaction.cxx) keeps the invariant.
use rpm_ostree.Prelude.{
  ℕ, suc, ◌≡◌, refl, ◌≢◌, Bool, true, false, Option, none, some, arith, sym, subst, ap, fun_ext,
}
use rpm_ostree.Prelude.Text.{Text}
use rpm_ostree.Daemon.Objects.{Invocation, Transaction, World, update, put}
use rpm_ostree.Daemon.Sysroot.{Prep, fresh, prep_slot, prep_for_txn, set_txn, set_txn_and_title}
use rpm_ostree.Daemon.Lifecycle.{
  InitEnv, InitResult, initialized, init_failed, constructed, initable_init, install,
  new_transaction, request_prep, request,
}
use rpm_ostree.Daemon.Invariant.{IsSound, Inv, Slot, caller, Holds-object, update_self}

abbrev pub Safe : Option World → Type 0
Safe none = ⊥
Safe (some w) = Inv w

-- An initialised object waits for Start(), holds the lock on its sysroot, and has its caller's name.
abbrev IsNew : Invocation → InitResult → Type 0
IsNew inv (init_failed e) = Unit {0}
IsNew inv (initialized t) = IsSound 0 t × (t.invocation ≡ inv)

initable_init-IsNew :
    (inv : Invocation) (n : ℕ) (env : InitEnv) → IsNew inv (initable_init env (constructed inv n))
unfolding initable_init constructed
initable_init-IsNew inv n env = ground arith

set_txn-eq :
    (id : ℕ) (t : Transaction) (w : World)
    → w.close_transaction_timeout_id ≡ 0
    → w.transaction ≡ none
    → set_txn (some id) (put id t w)
      ≡ some (record w {
        objects = update w.objects id (some t);
        transaction = some id;
        active_transaction = caller t;
      })
unfolding set_txn
set_txn-eq id t w timer e = ground (arith, update_self w.objects id (some t))

update_other :
    (f : ℕ → Option Transaction) (id : ℕ) (o : Option Transaction)
    → ((i : ℕ) → f i ≡ none)
    → (i : ℕ) → id ≢ i
    → update f id o i ≡ none
update_other f id o h i n = ground (arith, h i)

set_txn-Inv :
    (id : ℕ) (t : Transaction) (w : World)
    → Slot w none
    → w.transaction ≡ none
    → IsSound 0 t
    → Safe (set_txn (some id) (put id t w))
set_txn-Inv id t w (timer, active, gone) e sound = rw (set_txn-eq id t w timer e) (record {
  slot = (
    Holds-object
        (record w {
          transaction = some id;
          objects = update w.objects id (some t);
          active_transaction = caller t;
        })
        (update w.objects id (some t) id) t (update_self w.objects id (some t)) (rw timer sound)
        refl,
    update_other w.objects id (some t) gone,
  );
})

put_twice :
    (f : ℕ → Option Transaction) (id : ℕ) (o p : Option Transaction)
    → update (update f id o) id p ≡ update f id p
put_twice f id o p = fun_ext λ i. ground arith

set_txn_and_title-eq :
    (id : ℕ) (t : Transaction) (title : Text) (w : World)
    → set_txn_and_title id title (put id t w)
      ≡ set_txn (some id) (put id (record t { title = title }) w)
unfolding set_txn_and_title
set_txn_and_title-eq id t title w =
    rw (update_self w.objects id (some t), set_txn_and_title)
      (ap (λ f. set_txn (some id) (record w { objects = f }))
        (put_twice w.objects id (some t) (some (record t { title = title }))))

set_txn_and_title-Inv :
    (id : ℕ) (t : Transaction) (title : Text) (w : World)
    → Slot w none
    → w.transaction ≡ none
    → IsSound 0 t
    → Safe (set_txn_and_title id title (put id t w))
set_txn_and_title-Inv id t title w s e sound =
    subst Safe (sym (set_txn_and_title-eq id t title w))
      (set_txn-Inv id (record t { title = title }) w s e (ground arith))

install-Inv :
    (inv : Invocation) (r : InitResult) (title : Text) (w : World)
    → Slot w none
    → w.transaction ≡ none
    → IsNew inv r
    → Safe (install r title w)
unfolding install
install-Inv inv (init_failed e') title w s e n = record { slot = rw e s }
install-Inv inv (initialized t) title w s e n =
    set_txn_and_title-Inv w.next_id t title (record w { next_id = suc w.next_id }) s e n.0

new_transaction-eq :
    (inv : Invocation) (env : InitEnv) (title : Text) (w : World)
    → w.transaction ≡ none
    → new_transaction inv env title w
      ≡ install
          (initable_init env (constructed inv w.next_source))
          title
          (record w { next_source = suc w.next_source })
unfolding new_transaction
new_transaction-eq inv env title w e = ground arith

new_transaction-Inv :
    (inv : Invocation) (env : InitEnv) (title : Text) (w : World)
    → Slot w none
    → w.transaction ≡ none
    → Safe (new_transaction inv env title w)
new_transaction-Inv inv env title w s e = subst Safe (sym (new_transaction-eq inv env title w e)) (
    install-Inv inv (initable_init env (constructed inv w.next_source)) title
      (record w { next_source = suc w.next_source }) s e
      (initable_init-IsNew inv w.next_source env))

prep_slot-busy :
    (w : World) (inv : Invocation) (o : Option ℕ) → Slot w o → prep_slot w inv o ≡ fresh → o ≡ none
unfolding prep_slot
prep_slot-busy w inv none s e = refl
prep_slot-busy w inv (some id) s e = ground arith

prep_for_txn-fresh :
    (w : World) (inv : Invocation) → Inv w → prep_for_txn w inv ≡ fresh → w.transaction ≡ none
unfolding prep_for_txn
prep_for_txn-fresh w inv v e = ground (arith, prep_slot-busy w inv w.transaction v.slot)

request_prep-Inv :
    (p : Prep) (inv : Invocation) (loaded : Bool) (env : InitEnv) (title : Text) (w : World)
    → Inv w
    → prep_for_txn w inv ≡ p
    → Safe (request_prep p inv loaded env title w)
unfolding request_prep
request_prep-Inv fresh inv true env title w v e =
    let free = prep_for_txn-fresh w inv v e in
    new_transaction-Inv inv env title w (subst (Slot w) free v.slot) free
request_prep-Inv fresh inv false env title w v e = v
request_prep-Inv _ inv loaded env title w v e = v

pub request-Inv :
    (inv : Invocation) (loaded : Bool) (env : InitEnv) (title : Text) (w : World)
    → Inv w
    → Safe (request inv loaded env title w)
unfolding request
request-Inv inv loaded env title w v = request_prep-Inv _ inv loaded env title w v refl
