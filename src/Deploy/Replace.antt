-- ===== src/Deploy/Replace.antt =====
-- The overrides of the origin and the pull of the base, in
-- deploy_transaction_execute of
-- src/daemon/rpmostreed-transaction-types.cxx.
use rpm_ostree.Prelude.{
  Bool, true, false, ◌||◌, Option, none, some, List, [], ◌∷◌, if◌then◌else◌, is_some,
}
use rpm_ostree.Prelude.Text.{Text}
use rpm_ostree.Prelude.Result.{Action, pure, call, ◌>>=◌}
use rpm_ostree.Txn.Effects.{vardict_lookup_bool}
use rpm_ostree.Prelude.Int.{ℤ}
use rpm_ostree.Deploy.Request.{DeployFlags, DeployOptions, Modifiers, given, canonical}
use rpm_ostree.Deploy.Fds.{LocalFds}
use rpm_ostree.Deploy.Finish.{DeployStep, pull_base}
use rpm_ostree.Deploy.Origin.{origin_merge_treefile}
use rpm_ostree.Deploy.Overrides.{
  Names, no_names, add_all, add_recorded, reset_overrides, drop_replaced, canonical_names,
}
use rpm_ostree.Deploy.Env.{DeployEnv, Work, traced}
use rpm_ostree.Deploy.Edit.{strv, load_base, import_local}

module _ {O : Type 0} (env : DeployEnv O) where
  abbrev pub drop_all_overrides : Work O → Work O
  drop_all_overrides w =
      let r = env.api.remove_all_overrides w.origin in
      record w {
        origin = r.0;
        changed = w.changed || r.1;
        override_changed = w.override_changed || r.1;
      }

  -- The two maps, filled from the merge deployment and from the origin.
  unfoldable pub known_names : O → Action DeployStep Names
  known_names origin = call env.layered_info >>= λ info. call (
      add_recorded env.nevra_api (add_all (add_all no_names info.0) info.1)
        (env.api.get_packages_override_replace_local origin))

  abbrev pub add_replaced : List Text → O → Action DeployStep O
  add_replaced [] origin = pure origin
  add_replaced (pkg ∷ pkgs) origin =
      call (env.api.add_packages_override_replace_local origin (pkg ∷ pkgs))

  -- The replacement by local packages.
  unfoldable pub replace_local : Names → Option (List ℤ) → O → Action DeployStep O
  replace_local names none origin = pure origin
  replace_local names (some fds) origin = import_local env fds >>= λ pkgs.
      call (drop_replaced env.api env.nevra_api names pkgs origin) >>= add_replaced pkgs

  -- The change of the overrides, apart from removals.
  unfoldable pub change_overrides :
      DeployOptions → Modifiers → LocalFds → Work O → Action DeployStep (Work O)
  change_overrides options m local w =
      if vardict_lookup_bool options.no_overrides false
      then pure (drop_all_overrides w)
      else if given m.override_reset_packages || is_some local.override_replace_local
      then (known_names w.origin >>= λ names.
          reset_overrides env.api names (strv (canonical m.override_reset_packages)) w.origin
          >>= replace_local names local.override_replace_local
          >>= λ origin.
              pure (record w { origin = origin; changed = true; override_changed = true }))
      else pure w

  unfoldable pub merge : Option Text → Work O → Action DeployStep (Work O)
  merge none w = pure w
  merge (some treefile) w =
      call (origin_merge_treefile env.api w.origin treefile w.changed) >>= λ r.
      pure (record w { origin = r.0; changed = r.1 })

  abbrev pub base_or_live : Bool → Action DeployStep Bool
  base_or_live base_changed = if base_changed then pure true else call env.has_live_apply_state

  -- The pull of the base.
  unfoldable pub pull : DeployFlags → Work O → Action DeployStep (Work O)
  pull flags w =
      if flags.no_pull_base
      then pure w
      else traced (pull_base flags.download_metadata_only) (env.upgrader_pull_base w.origin)
        >>= base_or_live
        >>= λ c. pure (record w { changed = w.changed || c })

  -- The removal of packages of the base.
  unfoldable pub remove_overridden :
      DeployFlags → Option (List Text) → Work O → Action DeployStep (Work O)
  remove_overridden flags none w = pure w
  remove_overridden flags (some pkgs) w =
      load_base env (if flags.no_pull_base then env.base else env.pulled_base) w >>= λ r.
      call (canonical_names r.1 pkgs) >>= λ names.
      call (env.api.add_packages_override_remove r.0.origin names) >>= λ origin.
      pure (record r.0 { origin = origin; changed = true })
