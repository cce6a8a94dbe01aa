-- ===== src/Txn/Cleanup.antt =====
-- cleanup_transaction_execute of src/daemon/rpmostreed-transaction-types.cxx, on the filter of
-- src/daemon/rpmostree-sysroot-core.cxx.
use rpm_ostree.Prelude.{
  ℕ, ◌≡◌, refl, Bool, true, false, ◌||◌, Option, none, some, List, [], ◌∷◌, ◌++◌, is_some, arith,
  any, if◌then◌else◌, All,
}
use rpm_ostree.Prelude.Text.{Text}
use rpm_ostree.Prelude.Result.{Result, ok, Action, pure, call, attempt, do_if, ◌>>=◌, ◌>>◌}
use rpm_ostree.Sysroot.Deployments.{Deployment, is_booted, filter_loop, filter_deployments}
use rpm_ostree.Txn.Effects.{Effect, write_deployments, base_cleanup, clear_repomd}

-- RpmOstreeTransactionCleanupFlags
pub record CleanupFlags : Type 0 where
  pub base : Bool
  pub repomd : Bool
  pub pending_deploy : Bool
  pub rollback_deploy : Bool

-- The sysroot, and how the calls on it end; `clear_cache` is that of
-- remove_directory_content_if_exists.
pub record CleanupEnv : Type 0 where
  pub osname : Text
  pub deployments : List Deployment
  pub booted : Option ℕ
  pub get_repo : Result (Unit {0})
  pub write : Result (Unit {0})
  pub cleanup : Result (Unit {0})
  pub clear_cache : Result (Unit {0})

-- The new list of deployments, if one is to be written.
unfoldable pub cleaned : CleanupEnv → CleanupFlags → Option (List Deployment)
cleaned env flags =
    if flags.pending_deploy || flags.rollback_deploy
    then filter_deployments env.deployments env.booted env.osname flags.pending_deploy
        flags.rollback_deploy
    else none

-- Write the new list, and tell whether the base cleanup is to follow.
unfoldable pub write_cleaned :
    CleanupEnv → CleanupFlags → Option (List Deployment) → Action Effect Bool
write_cleaned env flags none = pure flags.base
write_cleaned env flags (some new) = attempt (write_deployments new) env.write >> pure true

-- cleanup_transaction_execute
unfoldable pub cleanup_execute : CleanupEnv → CleanupFlags → Action Effect (Unit {0})
unfolding write_cleaned
cleanup_execute env flags =
    call env.get_repo
    >> (write_cleaned env flags (cleaned env flags) >>= λ base.
        do_if base (attempt base_cleanup env.cleanup)
        >> do_if flags.repomd (attempt clear_repomd env.clear_cache))

abbrev one_if : Bool → Effect → List Effect
one_if true e = e ∷ []
one_if false e = []

abbrev written : Option (List Deployment) → List Effect
written none = []
written (some new) = write_deployments new ∷ []

-- When every call succeeds, a cleanup writes the deployments if the filter drops one, then cleans the
-- base if that was asked for or a list was written, then the repository metadata if that was asked
-- for, and nothing else.
cleanup_execute-Trace :
    (env : CleanupEnv) (flags : CleanupFlags)
    → env.get_repo ≡ ok tt
    → env.write ≡ ok tt
    → env.cleanup ≡ ok tt
    → env.clear_cache ≡ ok tt
    → cleanup_execute env flags [] ≡ (
      ok tt,
      written (cleaned env flags)
          ++ (one_if (flags.base || is_some (cleaned env flags)) base_cleanup
              ++ one_if flags.repomd clear_repomd),
    )
unfolding cleanup_execute
cleanup_execute-Trace env flags r w c k = ground (arith, r, w, c, k)

filter_loop-booted :
    (b : ℕ) (osname : Text) (p r f : Bool) (ds : List Deployment)
    → any (is_booted (some b)) (filter_loop (some b) osname p r f ds) ≡ any (is_booted (some b)) ds
unfolding filter_loop
filter_loop-booted b osname p r f [] = refl
filter_loop-booted b osname p r f (d ∷ ds) =
    ground (arith, filter_loop-booted b osname p r (is_booted (some b) d || f) ds)

-- An effect leaves the booted deployment in the list.
abbrev pub KeepsBooted : ℕ → Effect → Type 0
KeepsBooted b (write_deployments new) = any (is_booted (some b)) new ≡ true
KeepsBooted b _ = Unit {0}

abbrev KeptBy : ℕ → Option (List Deployment) → Type 0
KeptBy b none = Unit {0}
KeptBy b (some new) = any (is_booted (some b)) new ≡ true

cleaned-KeptBy :
    (env : CleanupEnv) (flags : CleanupFlags) (b : ℕ)
    → env.booted ≡ some b
    → any (is_booted (some b)) env.deployments ≡ true
    → KeptBy b (cleaned env flags)
unfolding cleaned filter_deployments
cleaned-KeptBy env flags b e h = ground (
  arith,
  filter_loop-booted b env.osname flags.pending_deploy flags.rollback_deploy false env.deployments,
)

-- Whatever calls fail on the way, a cleanup never writes a list without the booted deployment.
pub cleanup_execute-KeepsBooted :
    (env : CleanupEnv) (flags : CleanupFlags) (b : ℕ)
    → env.booted ≡ some b
    → any (is_booted (some b)) env.deployments ≡ true
    → All (KeepsBooted b) (cleanup_execute env flags []).1
unfolding cleanup_execute write_cleaned
cleanup_execute-KeepsBooted env flags b e h = ground (arith, cleaned-KeptBy env flags b e h)
