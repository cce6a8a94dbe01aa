-- ===== src/Core/ImportLoop.antt =====
-- The loop of rpmostree_context_import: how it goes on, and how it ends.
use rpm_ostree.Prelude.{
  ℕ, ◌+◌, ◌-◌, ◌<◌, ◌≤◌, ◌≡◌, refl, sym, ap, ◌∙◌, subst, true, false, Option, none, some, List, [],
  ◌∷◌, arith, length, is_some, Option-cases, ◌⊎◌, Bool-cases, inl, inr, if_true, if_false,
}
use rpm_ostree.Prelude.Text.{Text}
use rpm_ostree.Core.Import.{
  Import, mainctx_iter, record_error, on_async_import_done, iterate, begin, import_packages,
}
use rpm_ostree.Core.ImportLaws.{IsCounted, IsRunning, mainctx_iter-IsRunning, mainctx_iter-imported}

module _ (create : ℕ → Option Text) (total cpus : ℕ) where
  -- The state when an importer has ended, before the next packages start.
  ended : Option Text → Import → Import
  ended o s = record (record_error o s) {
    n_async_pkgs_imported = (record_error o s).n_async_pkgs_imported + 1;
    n_async_running = (record_error o s).n_async_running - 1;
  }

  on_async_import_done-lem :
      (o : Option Text) (s : Import)
      → IsCounted total cpus s
      → 0 < s.n_async_running
      → on_async_import_done create o s ≡ some (mainctx_iter create (ended o s))
  unfolding on_async_import_done ended record_error
  on_async_import_done-lem none s v h = ground (arith, v)
  on_async_import_done-lem (some e) s v h = ground (arith, v)

  ended-IsCounted :
      (o : Option Text) (s : Import)
      → IsCounted total cpus s
      → 0 < s.n_async_running
      → IsCounted total cpus (ended o s)
  unfolding ended record_error
  ended-IsCounted none s v h = ground (arith, v)
  ended-IsCounted (some e) s v h = ground (arith, v)

  ended-running : (o : Option Text) (s : Import) → (ended o s).async_running ≡ s.async_running
  unfolding ended record_error
  ended-running none s = refl
  ended-running (some e) s = refl

  ended-imported :
      (o : Option Text) (s : Import)
      → (ended o s).n_async_pkgs_imported ≡ s.n_async_pkgs_imported + 1
  unfolding ended record_error
  ended-imported none s = refl
  ended-imported (some e) s = refl

  next-IsRunning :
      (o : Option Text) (s : Import)
      → 0 < cpus
      → IsRunning total cpus s
      → s.async_running ≡ true
      → IsRunning total cpus (mainctx_iter create (ended o s))
  next-IsRunning o s h v r =
      mainctx_iter-IsRunning create total cpus (ended o s) h (ended-running o s ∙ r)
        (ended-IsCounted o s v.counts (v.busy r))

  -- The loop has a state (no assertion failed) that keeps the invariant.
  abbrev pub Runs : Option Import → Type 0
  Runs none = ⊥
  Runs (some s) = IsRunning total cpus s

  iterate-next :
      (o : Option Text) (os : List (Option Text)) (s : Import)
      → IsRunning total cpus s
      → s.async_running ≡ true
      → iterate create (o ∷ os) (some s)
        ≡ iterate create os (some (mainctx_iter create (ended o s)))
  unfolding iterate
  iterate-next o os s v r =
      if_true s.async_running _ _ r
      ∙ ap (iterate create os) (on_async_import_done-lem o s v.counts (v.busy r))

  iterate-stop :
      (os : List (Option Text)) (s : Import)
      → s.async_running ≡ false
      → iterate create os (some s) ≡ some s
  unfolding iterate
  iterate-stop [] s r = refl
  iterate-stop (o ∷ os) s r = if_false s.async_running _ _ r

  iterate-Runs :
      (os : List (Option Text)) (s : Import)
      → 0 < cpus
      → IsRunning total cpus s
      → Runs (iterate create os (some s))
  iterate-Runs [] s h v = unfold iterate in v
  iterate-Runs (o ∷ os) s h v = elim (Bool-cases s.async_running) [
    | inl r ↦
        subst Runs (sym (iterate-next o os s v r))
          (iterate-Runs os (mainctx_iter create (ended o s)) h (next-IsRunning o s h v r))
    | inr r ↦ subst Runs (sym (iterate-stop (o ∷ os) s r)) (v)
  ]

  -- The loop has ended: no importer runs, and without an error every package is imported.
  abbrev pub Ends : Option Import → Type 0
  Ends none = ⊥
  Ends (some s) =
      (s.async_running ≡ false)
      × (s.n_async_running ≡ 0)
      × ((is_some s.async_error ≡ true) ⊎ (s.n_async_pkgs_imported ≡ total))

  stopped-Ends : (s : Import) → IsRunning total cpus s → s.async_running ≡ false → Ends (some s)
  stopped-Ends s v r = (
    r,
    v.idle r,
    elim (Option-cases s.async_error) [
      | inl e ↦ inr (omega (arith, v.complete r e, v.idle r, v.counts.counted))
      | inr (m, e) ↦ inl (ap is_some e)
    ],
  )

  drained :
      (s : Import)
      → IsRunning total cpus s
      → total ≤ s.n_async_pkgs_imported
      → s.async_running ≡ false
  drained s v h = elim (Bool-cases s.async_running) [
    | inl r ↦ absurd (omega (arith, v.busy r, v.counts.counted, v.counts.started))
    | inr r ↦ r
  ]

  iterate-Ends :
      (os : List (Option Text)) (s : Import)
      → 0 < cpus
      → IsRunning total cpus s
      → total ≤ s.n_async_pkgs_imported + length os
      → Ends (iterate create os (some s))
  iterate-Ends [] s h v k = unfold iterate in stopped-Ends s v (drained s v (omega arith))
  iterate-Ends (o ∷ os) s h v k = elim (Bool-cases s.async_running) [
    | inl r ↦ subst Ends (sym (iterate-next o os s v r)) (
        iterate-Ends os (mainctx_iter create (ended o s)) h (next-IsRunning o s h v r)
          (omega (arith, mainctx_iter-imported create total cpus (ended o s), ended-imported o s)))
    | inr r ↦ subst Ends (sym (iterate-stop (o ∷ os) s r)) (stopped-Ends s v r)
  ]

-- A context that has imported nothing yet.
pub record IsFresh (s : Import) : Type 0 where
  pub none_imported : s.n_async_pkgs_imported ≡ 0
  pub not_running : s.async_running ≡ false
  pub none_running : s.n_async_running ≡ 0
  pub no_error : s.async_error ≡ none

begin-IsCounted : (cpus : ℕ) (s : Import) → IsFresh s → IsCounted s.total cpus (begin cpus s)
unfolding begin
begin-IsCounted cpus s f = record {
  same_total = refl;
  same_max = refl;
  counted = omega (arith, f.none_imported);
  started = omega arith;
  bounded = omega arith;
}

begun :
    (create : ℕ → Option Text) (cpus : ℕ) (s : Import)
    → IsFresh s
    → 0 < cpus
    → IsRunning s.total cpus (mainctx_iter create (begin cpus s))
begun create cpus s f h =
    mainctx_iter-IsRunning create s.total cpus (begin cpus s) h (unfold begin in refl)
      (begin-IsCounted cpus s f)

-- However the importers of a fresh context end, no assertion fails, no more of them run than there
-- are processors, every package that was started is imported or running, and the loop goes on
-- exactly as long as an importer runs.
pub import_packages-Runs :
    (create : ℕ → Option Text) (cpus : ℕ) (os : List (Option Text)) (s : Import)
    → IsFresh s
    → 0 < cpus
    → Runs create s.total cpus (import_packages create cpus os s)
unfolding import_packages
import_packages-Runs create cpus os s f h =
    iterate-Runs create s.total cpus os (mainctx_iter create (begin cpus s)) h
      (begun create cpus s f h)

pub import_packages-Ends :
    (create : ℕ → Option Text) (cpus : ℕ) (os : List (Option Text)) (s : Import)
    → IsFresh s
    → 0 < cpus
    → s.total ≤ length os
    → Ends create s.total cpus (import_packages create cpus os s)
unfolding import_packages
import_packages-Ends create cpus os s f h k =
    iterate-Ends create s.total cpus os (mainctx_iter create (begin cpus s)) h
      (begun create cpus s f h) (omega arith)
