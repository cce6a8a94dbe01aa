-- ===== src/Deploy/Target.antt =====
-- The new refspec and revision of the origin, in deploy_transaction_execute of
-- src/daemon/rpmostreed-transaction-types.cxx. The
-- progress and the signatures that are shown are left out.
use rpm_ostree.Prelude.{List, false, Option, none, some, [], ◌++◌, if◌then◌else◌}
use rpm_ostree.Prelude.Text.{Text, codes}
use rpm_ostree.Prelude.Result.{
  Result, ok, error, prefix_error, Action, pure, throw, call, attempt, ◌>>=◌, ◌>>◌,
}
use rpm_ostree.Txn.Effects.{vardict_lookup_bool}
use rpm_ostree.Deploy.Request.{DeployOptions}
use rpm_ostree.Deploy.Fds.{LocalFds, is_minus_one}
use rpm_ostree.Deploy.Finish.{DeployStep, pull_local_commit}
use rpm_ostree.Deploy.Refspec.{OriginEdit, change_origin_refspec, apply_revision_override}
use rpm_ostree.Deploy.Origin.{origin_apply_all, origin_set_override_commit}
use rpm_ostree.Deploy.Env.{DeployEnv, Work, g_assert}

abbrev pub unchanged : {O : Type 0} → O → Work O
unchanged origin = record {
  origin = origin;
  changed = false;
  remove_changed = false;
  override_changed = false;
  base_rsack = none;
}

module _ {O : Type 0} (env : DeployEnv O) where
  -- The refspec after a rebase to a local repository, ":" and the commit.
  unfoldable pub local_rebase : LocalFds → Option Text → Action DeployStep (Option Text)
  local_rebase local none = g_assert (is_minus_one local.local_repo_remote_dfd) >> pure none
  local_rebase local (some refspec) =
      if is_minus_one local.local_repo_remote_dfd
      then pure (some refspec)
      else call (prefix_error (codes "Failed to open local repo") env.open_local_repo)
        >> call (env.resolve_local_rev refspec)
        >>= λ rev.
            attempt (pull_local_commit rev) (
              prefix_error (codes "Pulling commit " ++ rev ++ codes " from local repo")
                (env.pull_local rev))
            >> pure (some (codes ":" ++ rev))

  -- What the edits of change_origin_refspec or apply_revision_override make of the origin.
  abbrev pub edited : {A : Type 0} → O → Result A × List OriginEdit → Action DeployStep (O × A)
  edited origin (ok a, edits) = pure (origin_apply_all env.api origin edits, a)
  edited origin (error e, edits) = throw e

  abbrev pub edit_origin : {A : Type 0} → O → Action OriginEdit A → Action DeployStep (O × A)
  edit_origin origin m = edited origin (m [])

  -- The origin with the new refspec, and the old refspec.
  unfoldable pub change_refspec :
      DeployOptions → Option Text → O → Action DeployStep (O × Option Text)
  change_refspec options none origin = pure (origin, none)
  change_refspec options (some refspec) origin =
      edit_origin origin (
        change_origin_refspec env.refspec_api (env.api.get_base_refspec origin) refspec
          options.custom_origin)
      >>= λ r. pure (r.0, r.1.0)

  unfoldable pub change_revision : DeployOptions → Option Text → O → Action DeployStep O
  change_revision options none origin = pure (origin_set_override_commit env.api origin none)
  change_revision options (some revision) origin =
      edit_origin origin (
        apply_revision_override env.revision_api (env.api.get_base_refspec origin)
          (vardict_lookup_bool options.skip_branch_check false) (some revision))
      >>= λ r. pure r.0
