-- ===== src/Core/ImportEnd.antt =====
-- How rpmostree_context_import returns.
use rpm_ostree.Prelude.{
  ℕ, ◌<◌, ◌≤◌, ◌≡◌, sym, subst, true, false, Option, none, some, List, arith, length, is_some, ◌⊎◌,
  Bool-cases, inl, inr, if_true, if_false, ◌==◌,
}
use rpm_ostree.Prelude.Text.{Text}
use rpm_ostree.Core.Import.{
  Import, Return, returned, waiting, finish_import, import_result, import_packages, context_import,
}
use rpm_ostree.Core.ImportLoop.{Ends, IsFresh, import_packages-Ends}

-- It has returned; with TRUE, all packages are imported and no importer runs.
abbrev pub Completes : ℕ → Option Return → Type 0
Completes total none = ⊥
Completes total (some (waiting s)) = ⊥
Completes total (some (returned (some e) s)) = s.async_running ≡ false
Completes total (some (returned none s)) =
    (s.async_running ≡ false) × (s.n_async_running ≡ 0) × (s.n_async_pkgs_imported ≡ total)

returned-Completes :
    (total : ℕ) (commit : Option Text) (s : Import)
    → s.async_running ≡ false
    → s.n_async_running ≡ 0
    → s.n_async_pkgs_imported ≡ total
    → Completes total (some (returned commit s))
returned-Completes total none s r n i = (r, n, i)
returned-Completes total (some e) s r n i = r

import_result-Completes :
    (total : ℕ) (error commit : Option Text) (s : Import)
    → s.async_running ≡ false
    → s.n_async_running ≡ 0
    → (is_some error ≡ true) ⊎ (s.n_async_pkgs_imported ≡ total)
    → Completes total (some (import_result error commit s))
unfolding import_result
import_result-Completes total (some e) commit s r n i = r
import_result-Completes total none commit s r n (inl h) = absurd (ground arith)
import_result-Completes total none commit s r n (inr i) = returned-Completes total commit s r n i

finish_import-Completes :
    (create : ℕ → Option Text) (total cpus : ℕ) (commit : Option Text) (o : Option Import)
    → Ends create total cpus o
    → Completes total (finish_import commit o)
unfolding finish_import
finish_import-Completes create total cpus commit none h = absurd h
finish_import-Completes create total cpus commit (some s) (r, n, i) =
    subst (Completes total) (sym (if_false s.async_running _ _ r))
      (import_result-Completes total s.async_error commit s r n i)

-- When as many importers have ended as a fresh context has packages, rpmostree_context_import has
-- returned, whatever failed on the way: no assertion failed and the loop is over, and if it returned
-- TRUE every package is imported.
pub context_import-Completes :
    (create : ℕ → Option Text) (keys start commit : Option Text) (cpus : ℕ)
    (os : List (Option Text)) (s : Import)
    → IsFresh s
    → 0 < cpus
    → s.total ≤ length os
    → Completes s.total (context_import create keys start commit cpus os s)
unfolding context_import
context_import-Completes create keys start commit cpus os s f h k =
    elim (Bool-cases (s.total == 0)) [
      | inl e ↦
          subst (Completes s.total) (sym (if_true (s.total == 0) _ _ e))
            (f.not_running, f.none_running, ground (arith, f.none_imported))
      | inr e ↦ subst (Completes s.total) (sym (if_false (s.total == 0) _ _ e)) (go keys start)
    ]
  where
    go :
        (keys start : Option Text)
        → Completes s.total (elim keys [
          | some e ↦ some (returned (some e) s)
          | none ↦ elim start [
            | some e ↦ some (returned (some e) s)
            | none ↦ finish_import commit (import_packages create cpus os s)
          ]
        ])
    go none none =
        finish_import-Completes create s.total cpus commit (import_packages create cpus os s)
          (import_packages-Ends create cpus os s f h k)
    go none (some e) = f.not_running
    go (some m) start = f.not_running
