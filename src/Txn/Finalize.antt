-- ===== src/Txn/Finalize.antt =====
-- finalize_deployment_transaction_execute of src/daemon/rpmostreed-transaction-types.cxx.
use rpm_ostree.Prelude.{
  ℕ, ◌≡◌, ◌≢◌, ◌↔◌, ◌⊎◌, inl, inr, Bool, true, false, not, Option, none, some, List, [], ◌∷◌, ◌++◌,
  arith, if◌then◌else◌,
}
use rpm_ostree.Prelude.Text.{Text, text_eq, text_eq_iff, codes}
use rpm_ostree.Prelude.Result.{
  Result, Result-cases, ok, prefix_error, Action, call, attempt, perform, throw_if, ◌>>=◌, ◌>>◌,
}
use rpm_ostree.Sysroot.Deployments.{Deployment}
use rpm_ostree.Txn.Inhibitors.{
  Inhibitor, check_sd_inhibitor_locks, AllowsReboot, check_sd_inhibitor_locks-AllowsReboot,
}
use rpm_ostree.Txn.Effects.{Effect, change_finalization, bump_mtime, reboot, vardict_lookup_bool}

-- The options of the call, and what the calls answer: the base commit of the first
-- deployment, its container digest (`none` for the exception), and the inhibitor locks.
pub record FinalizeEnv : Type 0 where
  pub osname : Text
  pub base_commit : Result Text
  pub image_digest : Option Text
  pub expected_checksum : Option Text
  pub allow_missing_checksum : Option Bool
  pub allow_unlocked : Option Bool
  pub list_inhibitors : Result (Option (List Inhibitor))
  pub decimal : ℕ → Text
  pub unlock : Result (Unit {0})

unfoldable pub or_digest : Option Text → Text → Text
or_digest none checksum = checksum
or_digest (some digest) checksum = digest

-- The comparison of the checksum with the expected one.
unfoldable pub check_checksum : FinalizeEnv → Option Text → Text → Action Effect (Unit {0})
check_checksum env none checksum =
    throw_if (not (vardict_lookup_bool env.allow_missing_checksum false))
      (codes "Missing expected checksum")
check_checksum env (some expected) checksum =
    throw_if (not (text_eq checksum expected))
      (codes "Expected staged base checksum " ++ expected ++ codes ", but found " ++ checksum)

unfoldable pub unlock_finalization : FinalizeEnv → Deployment → Action Effect (Unit {0})
unlock_finalization env d =
    if not d.finalization_locked
    then throw_if (not (vardict_lookup_bool env.allow_unlocked false))
        (codes "Staged deployment already unlocked")
    else attempt change_finalization
        (prefix_error (codes "Failed to unlock finalization of staged deployment") env.unlock)

unfoldable pub finalize_first : FinalizeEnv → Deployment → Action Effect (Unit {0})
unfolding check_checksum unlock_finalization
finalize_first env d =
    throw_if (not d.staged) (codes "No pending staged deployment found")
    >> throw_if (not (text_eq d.osname env.osname))
        (codes "Staged deployment is not for osname '" ++ env.osname ++ codes "'")
    >> (call env.base_commit >>= λ commit.
        check_checksum env env.expected_checksum (or_digest env.image_digest commit)
        >> call (check_sd_inhibitor_locks env.decimal env.list_inhibitors)
        >> unlock_finalization env d
        >> perform bump_mtime
        >> perform reboot)

-- finalize_deployment_transaction_execute, on the deployments
unfoldable pub finalize_execute : FinalizeEnv → List Deployment → Action Effect (Unit {0})
unfolding finalize_first
finalize_execute env [] = throw_if true (codes "No deployments found")
finalize_execute env (d ∷ ds) = finalize_first env d

-- The checksum is the expected one, or none is expected and that is allowed.
abbrev pub ChecksumAgrees : FinalizeEnv → Option Text → Text → Type 0
ChecksumAgrees env none checksum = vardict_lookup_bool env.allow_missing_checksum false ≡ true
ChecksumAgrees env (some expected) checksum = checksum ≡ expected

-- The deployment is locked and gets unlocked, or it is unlocked and that is allowed.
abbrev pub Unlocks : FinalizeEnv → Deployment → Type 0
Unlocks env d =
    ((d.finalization_locked ≡ true) × (env.unlock ≡ ok tt))
    ⊎ ((d.finalization_locked ≡ false) × (vardict_lookup_bool env.allow_unlocked false ≡ true))

check_checksum_iff :
    (env : FinalizeEnv) (expected : Option Text) (checksum : Text)
    → ((check_checksum env expected checksum []).0 ≡ ok tt) ↔ ChecksumAgrees env expected checksum
unfolding check_checksum
check_checksum_iff env none checksum = ground arith
check_checksum_iff env (some expected) checksum = ground (arith, text_eq_iff checksum expected)

check_checksum-log :
    (env : FinalizeEnv) (expected : Option Text) (checksum : Text)
    → (check_checksum env expected checksum []).1 ≡ []
unfolding check_checksum
check_checksum-log env none checksum = ground arith
check_checksum-log env (some expected) checksum = ground arith

-- The staged deployment is for this system, the checksum agrees, the locks are known and none blocks a
-- shutdown, and it is unlocked.
pub record Finalizes (env : FinalizeEnv) (d : Deployment) (commit : Text) : Type 0 where
  pub staged : d.staged ≡ true
  pub same_osname : d.osname ≡ env.osname
  pub agrees : ChecksumAgrees env env.expected_checksum (or_digest env.image_digest commit)
  pub no_locks : AllowsReboot env.list_inhibitors
  pub unlocks : Unlocks env d

finalize_first_iff :
    (env : FinalizeEnv) (d : Deployment) (commit : Text)
    → env.base_commit ≡ ok commit
    → ((finalize_first env d []).0 ≡ ok tt) ↔ Finalizes env d commit
unfolding finalize_first unlock_finalization
finalize_first_iff env d commit e = ground (
  arith,
  text_eq_iff d.osname env.osname,
  check_checksum_iff env env.expected_checksum (or_digest env.image_digest commit),
  check_checksum-log env env.expected_checksum (or_digest env.image_digest commit),
  check_sd_inhibitor_locks-AllowsReboot env.decimal env.list_inhibitors,
)

abbrev pub unlocks_first : List Deployment → List Effect
unlocks_first [] = []
unlocks_first (d ∷ ds) = if d.finalization_locked then change_finalization ∷ [] else []

-- Finalizing either succeeds, with the unlocking of a locked deployment, the new mtime and the reboot, in
-- this order, or fails and leaves everything as it was.
finalize_execute-Atomic :
    (env : FinalizeEnv) (ds : List Deployment)
    → (finalize_execute env ds [] ≡ (ok tt, unlocks_first ds ++ bump_mtime ∷ reboot ∷ []))
      ⊎ (((finalize_execute env ds []).0 ≢ ok tt) × ((finalize_execute env ds []).1 ≡ []))
unfolding finalize_execute finalize_first unlock_finalization
finalize_execute-Atomic env [] = ground arith
finalize_execute-Atomic env (d ∷ ds) = elim (Result-cases env.base_commit) [
  | inl (commit, e) ↦
      ground
        (arith, e, check_checksum-log env env.expected_checksum (or_digest env.image_digest commit))
  | inr (m, e) ↦ ground (arith, e)
]

-- With a base commit that loads: the first deployment is finalized exactly when it is staged and for
-- this system, its checksum (the container's digest, where there is one) is the expected one or none
-- is expected and that is allowed, the inhibitor locks are known and none of them blocks a shutdown, and it
-- is locked and gets unlocked, or is unlocked and that is allowed. Then a locked deployment is unlocked, the
-- mtime is new and the reboot is begun, in this order; otherwise nothing is changed at all.
pub finalize_execute-Finalizes :
    (env : FinalizeEnv) (d : Deployment) (ds : List Deployment) (commit : Text)
    → env.base_commit ≡ ok commit
    → (((finalize_execute env (d ∷ ds) []).0 ≡ ok tt) ↔ Finalizes env d commit)
      × ((finalize_execute env (d ∷ ds) []
            ≡ (ok tt, unlocks_first (d ∷ ds) ++ bump_mtime ∷ reboot ∷ []))
          ⊎ (((finalize_execute env (d ∷ ds) []).0 ≢ ok tt)
              × ((finalize_execute env (d ∷ ds) []).1 ≡ [])))
unfolding finalize_execute
finalize_execute-Finalizes env d ds commit e =
    (finalize_first_iff env d commit e, finalize_execute-Atomic env (d ∷ ds))
