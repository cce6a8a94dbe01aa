-- ===== src/Daemon/StatusLaws.antt =====
-- The idle exit of src/daemon/rpmostreed-daemon.cxx over whole runs of the main loop.
use rpm_ostree.Prelude.{
  ◌≡◌, refl, subst, ◌⊎◌, inl, inr, Bool, true, false, not, ◌&&◌, ◌||◌, Option, none, some, List, [],
  ◌∷◌, any, arith, if◌then◌else◌,
}
use rpm_ostree.Prelude.Text.{text_eq}
use rpm_ostree.Daemon.Status.{
  Daemon, no_clients, currently_idle, adjust_timers, notify, update_status, on_idle_exit,
  drop_client, add_client, remove_client, on_active_txn_changed, exit_now, reload_config, Tick,
  client_added, client_gone, txn_changed, config_reloaded, exit_asked, rerender, idle_timeout, tick,
  iteration, run_loop, run_until_idle_exit,
}

-- No transaction is active and no client is registered.
abbrev pub is_quiet : Daemon → Bool
is_quiet d = not d.have_active_txn && no_clients d.bus_clients

-- A reason to leave the loop: a request to exit, or the end of the idle time while all is quiet.
abbrev pub is_reason : Tick → Daemon → Bool
is_reason exit_asked d = true
is_reason idle_timeout d = d.idle_exit_source && is_quiet d
is_reason _ d = false

abbrev pub is_reload : Tick → Bool
is_reload (config_reloaded timeout) = true
is_reload _ = false

-- Whether an iteration meets a reason, and whether the iterations of a run do.
abbrev pub meets_reason : List Tick → Option Daemon → Bool
meets_reason ts none = false
meets_reason [] (some d) = false
meets_reason (t ∷ ts) (some d) = is_reason t d || meets_reason ts (tick t d)

abbrev pub run_meets_reason : List (List Tick) → Option Daemon → Bool
run_meets_reason batches none = false
run_meets_reason [] (some d) = false
run_meets_reason (ts ∷ batches) (some d) =
    d.running && (meets_reason ts (some d) || run_meets_reason batches (iteration ts (some d)))

-- The exit source is only there while all is quiet. While the daemon runs, it is there exactly when the
-- daemon is idle, unless the configuration was reloaded, and the status timer with it. If the daemon does
-- not run any more, there was a reason.
pub record IsTracked (reloaded reason : Bool) (d : Daemon) : Type 0 where
  pub armed : (d.idle_exit_source ≡ false) ⊎ (is_quiet d ≡ true)
  pub source : (d.running ≡ false) ⊎ ((reloaded ≡ true) ⊎ (d.idle_exit_source ≡ currently_idle d))
  pub timer : (d.running ≡ false) ⊎ (d.rerender_timer ≡ d.idle_exit_source)
  pub exited : (d.running ≡ true) ⊎ (reason ≡ true)

-- `none` is a failed assertion.
abbrev pub Tracked : Bool → Bool → Option Daemon → Type 0
Tracked reloaded reason none = ⊥
Tracked reloaded reason (some d) = IsTracked reloaded reason d

update_status-IsTracked :
    (reloaded reason : Bool) (d : Daemon)
    → (d.running ≡ false) ⊎ (d.rerender_timer ≡ d.idle_exit_source)
    → (d.running ≡ true) ⊎ (reason ≡ true)
    → Tracked reloaded reason (update_status d)
unfolding update_status adjust_timers notify currently_idle
update_status-IsTracked reloaded reason d t x = ground arith

Tracked-if :
    (reloaded reason : Bool) (b : Bool) (x y : Option Daemon)
    → (b ≡ true → Tracked reloaded reason x)
    → (b ≡ false → Tracked reloaded reason y)
    → Tracked reloaded reason (if b then x else y)
Tracked-if reloaded reason true x y h k = h refl
Tracked-if reloaded reason false x y h k = k refl

on_idle_exit-IsTracked :
    (reloaded reason : Bool) (d : Daemon)
    → IsTracked reloaded reason d
    → d.idle_exit_source ≡ true
    → Tracked (reloaded || false) (reason || (d.idle_exit_source && is_quiet d)) (on_idle_exit d)
unfolding on_idle_exit currently_idle
on_idle_exit-IsTracked reloaded reason d v s = ground (arith, v.armed)

-- More reloads and more reasons keep it.
IsTracked-more :
    (reloaded reason b c : Bool) (o : Option Daemon)
    → Tracked reloaded reason o
    → Tracked (reloaded || b) (reason || c) o
IsTracked-more reloaded reason b c none v = v
IsTracked-more reloaded reason b c (some d) v = record {
  armed = v.armed;
  source = ground (arith, v.source);
  timer = v.timer;
  exited = ground (arith, v.exited);
}

tick-IsTracked :
    (reloaded reason : Bool) (t : Tick) (d : Daemon)
    → IsTracked reloaded reason d
    → Tracked (reloaded || is_reload t) (reason || is_reason t d) (tick t d)
unfolding tick add_client remove_client on_active_txn_changed reload_config exit_now
tick-IsTracked reloaded reason (client_added c) d v = IsTracked-more reloaded reason false false _ (
    Tracked-if reloaded reason (any (λ x. text_eq x c) d.bus_clients) _ _ (λ _. v)
      (λ _.
        update_status-IsTracked reloaded reason (record d { bus_clients = c ∷ d.bus_clients })
          v.timer v.exited))
tick-IsTracked reloaded reason (client_gone c) d v = IsTracked-more reloaded reason false false _ (
    Tracked-if reloaded reason (any (λ x. text_eq x c) d.bus_clients) _ _
      (λ _.
        update_status-IsTracked reloaded reason
          (record d { bus_clients = drop_client c d.bus_clients }) v.timer v.exited)
      (λ _. v))
tick-IsTracked reloaded reason (txn_changed active) d v =
    IsTracked-more reloaded reason false false _ (
      update_status-IsTracked reloaded reason (record d { have_active_txn = active }) v.timer
        v.exited)
tick-IsTracked reloaded reason (config_reloaded timeout) d v = record {
  armed = v.armed;
  source = inr (inl (ground arith));
  timer = v.timer;
  exited = ground (arith, v.exited);
}
tick-IsTracked reloaded reason exit_asked d v = record {
  armed = v.armed;
  source = inl refl;
  timer = inl refl;
  exited = inr (ground arith);
}
tick-IsTracked reloaded reason rerender d v = IsTracked-more reloaded reason false false _ (
    Tracked-if reloaded reason d.rerender_timer _ _
      (λ _. update_status-IsTracked reloaded reason d v.timer v.exited) (λ _. v))
tick-IsTracked reloaded reason idle_timeout d v =
    Tracked-if (reloaded || false) (reason || (d.idle_exit_source && is_quiet d)) d.idle_exit_source
      _ _ (on_idle_exit-IsTracked reloaded reason d v)
      (λ _. IsTracked-more reloaded reason false (d.idle_exit_source && is_quiet d) (some d) v)

or_assoc : (a b c : Bool) → ((a || b) || c) ≡ (a || (b || c))
or_assoc true b c = refl
or_assoc false b c = refl

iteration-IsTracked :
    (reloaded reason : Bool) (ts : List Tick) (o : Option Daemon)
    → Tracked reloaded reason o
    → Tracked (reloaded || any is_reload ts) (reason || meets_reason ts o) (iteration ts o)
unfolding iteration
iteration-IsTracked reloaded reason ts none v = v
iteration-IsTracked reloaded reason [] (some d) v =
    IsTracked-more reloaded reason false false (some d) v
iteration-IsTracked reloaded reason (t ∷ ts) (some d) v =
    subst
      (λ k.
        Tracked k (reason || (is_reason t d || meets_reason ts (tick t d)))
          (iteration ts (tick t d)))
      (or_assoc reloaded (is_reload t) (any is_reload ts))
      (subst
        (λ k. Tracked ((reloaded || is_reload t) || any is_reload ts) k (iteration ts (tick t d)))
        (or_assoc reason (is_reason t d) (meets_reason ts (tick t d)))
        (iteration-IsTracked (reloaded || is_reload t) (reason || is_reason t d) ts (tick t d)
          (tick-IsTracked reloaded reason t d v)))

run_on-IsTracked :
    (reloaded reason more b c : Bool) (x y : Option Daemon)
    → Tracked (reloaded || more) (reason || c) x
    → Tracked reloaded reason y
    → Tracked (reloaded || more) (reason || (b && c)) (if b then x else y)
run_on-IsTracked reloaded reason more true c x y v w = v
run_on-IsTracked reloaded reason more false c x y v w =
    IsTracked-more reloaded reason more false y w

run_loop-IsTracked :
    (reloaded reason : Bool) (batches : List (List Tick)) (o : Option Daemon)
    → Tracked reloaded reason o
    → Tracked
        (reloaded || any (any is_reload) batches)
        (reason || run_meets_reason batches o)
        (run_loop batches o)
unfolding run_loop
run_loop-IsTracked reloaded reason batches none v = v
run_loop-IsTracked reloaded reason [] (some d) v =
    IsTracked-more reloaded reason false false (some d) v
run_loop-IsTracked reloaded reason (ts ∷ batches) (some d) v =
    run_on-IsTracked reloaded reason (any is_reload ts || any (any is_reload) batches) d.running _
      (run_loop batches (iteration ts (some d))) (some d)
      (subst
        (λ k.
          Tracked (reloaded || (any is_reload ts || any (any is_reload) batches)) k
            (run_loop batches (iteration ts (some d))))
        (or_assoc reason (meets_reason ts (some d))
          (run_meets_reason batches (iteration ts (some d))))
        (subst
          (λ k.
            Tracked k
              ((reason || meets_reason ts (some d))
                || run_meets_reason batches (iteration ts (some d)))
              (run_loop batches (iteration ts (some d))))
          (or_assoc reloaded (any is_reload ts) (any (any is_reload) batches))
          (run_loop-IsTracked (reloaded || any is_reload ts) (reason || meets_reason ts (some d))
            batches (iteration ts (some d)) (iteration-IsTracked reloaded reason ts (some d) v))))
      v

-- From a start with both timers or none, whatever clients, transactions, timers, signals and reloads of
-- the configuration do, and however many of them one iteration of the main loop dispatches: no assertion of update_status fails; the exit timer is
-- armed only while no transaction is active and no client is registered; while the daemon runs, it is armed
-- exactly when the daemon is idle, unless the configuration was reloaded, and the status timer with it; and
-- if the daemon runs no more, it was asked to exit, or the exit timer fired while no transaction was active
-- and no client was registered.
pub run_until_idle_exit-IsTracked :
    (batches : List (List Tick)) (d : Daemon)
    → d.rerender_timer ≡ d.idle_exit_source
    → Tracked
        (any (any is_reload) batches)
        (run_meets_reason batches (update_status (record d { running = true })))
        (run_until_idle_exit batches d)
unfolding run_until_idle_exit
run_until_idle_exit-IsTracked batches d t =
    run_loop-IsTracked false false batches _
      (update_status-IsTracked false false (record d { running = true }) (inr t) (inl refl))
