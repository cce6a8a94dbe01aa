-- ===== src/Txn/Rollback.antt =====
-- rollback_transaction_execute of src/daemon/rpmostreed-transaction-types.cxx. The pending and the
-- rollback deployment are the answers of ostree_sysroot_query_deployments_for.
use rpm_ostree.Prelude.{
  ℕ, ◌+◌, ◌≡◌, Bool, false, not, Option, none, some, List, [], ◌∷◌, arith, ◌==◌, ==_iff,
  if◌then◌else◌, All,
}
use rpm_ostree.Prelude.Text.{codes}
use rpm_ostree.Prelude.Result.{Result, ok, error, Action, throw, attempt, do_if, ◌>>◌}
use rpm_ostree.Sysroot.Deployments.{Deployment}
use rpm_ostree.Txn.Effects.{Effect, write_deployments, reboot_if}

pub record RollbackEnv : Type 0 where
  pub deployments : List Deployment
  pub booted : Option Deployment
  pub pending : Option Deployment
  pub rollback : Option Deployment
  pub want_reboot : Bool
  pub write : Result (Unit {0})
  pub inhibitor_locks : Result (Unit {0})

-- The deployment that comes first; `none` is NULL, where nothing is booted.
unfoldable pub choose_deployment :
    Option Deployment → Option Deployment → Option Deployment → Result (Option Deployment)
choose_deployment none none booted = error (codes "No rollback deployment found")
choose_deployment none (some r) booted = ok (some r)
choose_deployment (some p) none booted =
    if p.staged then error (codes "Staged deployment (remove with cleanup -p)") else ok booted
choose_deployment (some p) (some r) booted =
    if p.staged then error (codes "Staged deployment (remove with cleanup -p)") else ok (some r)

unfoldable pub without : ℕ → List Deployment → List Deployment
without id [] = []
without id (d ∷ ds) = let rest = without id ds in if d.id == id then rest else d ∷ rest

abbrev pub is_first : ℕ → List Deployment → Bool
is_first id [] = false
is_first id (d ∷ ds) = d.id == id

-- The part behind the choice. A deployment is identified by its `id`, also where the source
-- compares pointers.
unfoldable pub reorder_execute : RollbackEnv → Deployment → Action Effect (Unit {0})
reorder_execute env r =
    do_if (not (is_first r.id env.deployments))
      (attempt (write_deployments (r ∷ without r.id env.deployments)) env.write)
    >> reboot_if env.want_reboot env.inhibitor_locks

-- rollback_transaction_execute; `none` is the use of a NULL deployment.
unfoldable pub rollback_execute : RollbackEnv → Option (Action Effect (Unit {0}))
unfolding reorder_execute
rollback_execute env = elim (choose_deployment env.pending env.rollback env.booted) [
  | error e ↦ some (throw e)
  | ok none ↦ none
  | ok (some r) ↦ some (reorder_execute env r)
]

-- How many deployments of the list have this id.
abbrev pub count_id : ℕ → List Deployment → ℕ
count_id id [] = 0
count_id id (d ∷ ds) = (if d.id == id then 1 else 0) + count_id id ds

count_id-without :
    (i id : ℕ) (ds : List Deployment)
    → count_id i (without id ds) ≡ (if i == id then 0 else count_id i ds)
unfolding without
count_id-without i id [] = ground arith
count_id-without i id (d ∷ ds) = ground (arith, count_id-without i id ds)

reorder-Permutes :
    (r : Deployment) (i : ℕ) (ds : List Deployment)
    → count_id r.id ds ≡ 1
    → count_id i (r ∷ without r.id ds) ≡ count_id i ds
reorder-Permutes r i ds h = ground (arith, count_id-without i r.id ds, ==_iff r.id i, ==_iff i r.id)

-- An effect other than a write of deployments, or the write of a list that has `r` first and the
-- deployments of the old list, each as often.
abbrev pub Reorders : Deployment → List Deployment → Effect → Type 0
Reorders r old (write_deployments []) = ⊥
Reorders r old (write_deployments (d ∷ ds)) =
    (d ≡ r) × ((i : ℕ) → count_id i (d ∷ ds) ≡ count_id i old)
Reorders r old _ = Unit {0}

abbrev pub ReordersAll : Deployment → List Deployment → Option (Action Effect (Unit {0})) → Type 0
ReordersAll r old none = ⊥
ReordersAll r old (some m) = All (Reorders r old) (m []).1

reorder_execute-Reorders :
    (env : RollbackEnv) (r : Deployment)
    → ((i : ℕ) → count_id i (r ∷ without r.id env.deployments) ≡ count_id i env.deployments)
    → All (Reorders r env.deployments) (reorder_execute env r []).1
unfolding reorder_execute
reorder_execute-Reorders env r h = ground (arith, h)

-- A rollback with a chosen deployment, however its calls end, writes no other list than one with that
-- deployment first and the same deployments as before: none is lost and none comes twice. The
-- chosen deployment is in the old list once.
pub rollback_execute-Reorders :
    (env : RollbackEnv) (r : Deployment)
    → choose_deployment env.pending env.rollback env.booted ≡ ok (some r)
    → count_id r.id env.deployments ≡ 1
    → ReordersAll r env.deployments (rollback_execute env)
unfolding rollback_execute
rollback_execute-Reorders env r chosen once =
    rw (ReordersAll, chosen)
      (reorder_execute-Reorders env r (λ i. reorder-Permutes r i env.deployments once))
