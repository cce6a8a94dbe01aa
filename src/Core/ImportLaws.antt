-- ===== src/Core/ImportLaws.antt =====
-- What the import of Core/Import keeps true while the importers run, and where it ends.
use rpm_ostree.Prelude.{
  ℕ, zero, suc, ◌+◌, ◌-◌, ◌<◌, ◌≤◌, ◌≡◌, refl, sym, ap, ◌∙◌, subst, Bool, true, false, Option, none,
  some, arith, Bool-cases, Option-cases, inl, inr, ◌⊎◌,
}
use rpm_ostree.Prelude.Text.{Text}
use rpm_ostree.Core.Import.{Import, can_start, spawn, settle, mainctx_iter}

-- Every package that was started is imported or running, and no more run than there are processors.
pub record IsCounted (total cpus : ℕ) (s : Import) : Type 0 where
  pub same_total : s.total ≡ total
  pub same_max : s.n_async_max ≡ cpus
  pub counted : s.n_async_pkgs_imported + s.n_async_running ≡ s.async_index
  pub started : s.async_index ≤ total
  pub bounded : s.n_async_running ≤ cpus

-- The loop goes on exactly as long as an importer runs; when it has ended without an error, no
-- package is left.
pub record IsRunning (total cpus : ℕ) (s : Import) : Type 0 where
  pub counts : IsCounted total cpus s
  pub busy : s.async_running ≡ true → 0 < s.n_async_running
  pub idle : s.async_running ≡ false → s.n_async_running ≡ 0
  pub complete : s.async_running ≡ false → s.async_error ≡ none → s.async_index ≡ total

-- The state after a package was started, and after one could not be.
abbrev launched : Import → Import
launched s = record s { async_index = s.async_index + 1; n_async_running = s.n_async_running + 1 }

abbrev failed : Text → Import → Import
failed e s = record s { async_error = some e; cancelled = true }

-- What a state is when the loop of async_imports_mainctx_iter is through: without an error, no
-- package is left or all processors are busy.
record IsFull (total cpus : ℕ) (running : Bool) (s : Import) : Type 0 where
  counts : IsCounted total cpus s
  full : s.async_error ≡ none → (s.async_index ≡ total) ⊎ (s.n_async_running ≡ cpus)
  same_running : s.async_running ≡ running

module _ (create : ℕ → Option Text) (total cpus : ℕ) where
  spawn-cases :
      (rounds : ℕ) (s : Import)
      → ((can_start s ≡ false) × (spawn create (suc rounds) s ≡ s))
        ⊎ ((can_start s ≡ true)
            × (((e : Text) × (spawn create (suc rounds) s ≡ failed e s))
                ⊎ (spawn create (suc rounds) s ≡ spawn create rounds (launched s))))
  unfolding spawn
  spawn-cases rounds s = elim (Bool-cases (can_start s)) [
    | inl e ↦ inr (
      e,
      elim (Option-cases (create s.async_index)) [
        | inl c ↦ inr (rw (spawn, e, c))
        | inr (m, c) ↦ inl (m, rw (spawn, e, c))
      ],
    )
    | inr e ↦ inl (e, rw (spawn, e))
  ]

  launched-IsCounted :
      (s : Import) → IsCounted total cpus s → can_start s ≡ true → IsCounted total cpus (launched s)
  unfolding can_start
  launched-IsCounted s v e = ground arith

  stopped-full :
      (s : Import)
      → IsCounted total cpus s
      → can_start s ≡ false
      → s.async_error ≡ none
      → (s.async_index ≡ total) ⊎ (s.n_async_running ≡ cpus)
  unfolding can_start
  stopped-full s v c e = ground arith

  spawn-IsFull :
      (rounds : ℕ) (s : Import)
      → IsCounted total cpus s
      → total ≤ s.async_index + rounds
      → IsFull total cpus s.async_running (spawn create rounds s)
  spawn-IsFull zero s v h =
      unfold spawn in
      record { counts = v; full = λ e. inl (omega (arith, v.started)); same_running = refl }
  spawn-IsFull (suc rounds) s v h = elim (spawn-cases rounds s) [
    | inl (c, eq) ↦
        subst (IsFull total cpus s.async_running) (sym eq)
          (record { counts = v; full = stopped-full s v c; same_running = refl })
    | inr (c, inl (m, eq)) ↦ subst (IsFull total cpus s.async_running) (sym eq) (record {
      counts = record {
        same_total = v.same_total;
        same_max = v.same_max;
        counted = v.counted;
        started = v.started;
        bounded = v.bounded;
      };
      full = λ e. ground arith;
      same_running = refl;
    })
    | inr (c, inr eq) ↦
        subst (IsFull total cpus s.async_running) (sym eq)
          (spawn-IsFull rounds (launched s) (launched-IsCounted s v c) (omega arith))
  ]

  settle-IsRunning :
      (s : Import) → 0 < cpus → IsFull total cpus true s → IsRunning total cpus (settle s)
  unfolding settle
  settle-IsRunning s h v = ground (arith, v.counts)

  pub mainctx_iter-IsRunning :
      (s : Import)
      → 0 < cpus
      → s.async_running ≡ true
      → IsCounted total cpus s
      → IsRunning total cpus (mainctx_iter create s)
  unfolding mainctx_iter
  mainctx_iter-IsRunning s h r v = settle-IsRunning (spawn create (s.total - s.async_index) s) h (
      subst (λ b. IsFull total cpus b (spawn create (s.total - s.async_index) s)) r
        (spawn-IsFull (s.total - s.async_index) s v (omega (arith, v.same_total))))

  spawn-imported :
      (rounds : ℕ) (s : Import)
      → (spawn create rounds s).n_async_pkgs_imported ≡ s.n_async_pkgs_imported
  spawn-imported zero s = unfold spawn in refl
  spawn-imported (suc rounds) s = elim (spawn-cases rounds s) [
    | inl (c, eq) ↦ ap (λ r. r.n_async_pkgs_imported) eq
    | inr (c, inl (m, eq)) ↦ ap (λ r. r.n_async_pkgs_imported) eq
    | inr (c, inr eq) ↦ ap (λ r. r.n_async_pkgs_imported) eq ∙ spawn-imported rounds (launched s)
  ]

  pub mainctx_iter-imported :
      (s : Import) → (mainctx_iter create s).n_async_pkgs_imported ≡ s.n_async_pkgs_imported
  unfolding mainctx_iter settle
  mainctx_iter-imported s = ground (arith, spawn-imported (s.total - s.async_index) s)
