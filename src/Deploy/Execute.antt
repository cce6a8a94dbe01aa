-- ===== src/Deploy/Execute.antt =====
-- The whole of deploy_transaction_execute of src/daemon/rpmostreed-transaction-types.cxx.
use rpm_ostree.Prelude.{ℕ, Bool, false, not, Option, none, some, List, ◌++◌, if◌then◌else◌, ◌==◌}
use rpm_ostree.Prelude.Text.{Text, codes}
use rpm_ostree.Prelude.Result.{Action, throw, call, perform, attempt, ◌>>=◌, ◌>>◌}
use rpm_ostree.Deploy.Request.{DeployFlags, DeployOptions, Modifiers, canonical, execute_flags}
use rpm_ostree.Deploy.Fds.{LocalFds, expected_fdn, actual_fdn, split_fds}
use rpm_ostree.Deploy.Check.{refspec_or_revision, check_options}
use rpm_ostree.Deploy.Finish.{
  DeployStep, output_message, set_title, record_driver_info, migrate_pkgcache, FinishEnv, is_empty,
  finish,
}
use rpm_ostree.Deploy.Title.{
  title, upgrader_flags, metadata_only_compatible, no_overrides_compatible,
}
use rpm_ostree.Deploy.Origin.{origin_add_local_packages, origin_add_local_fileoverride_packages}
use rpm_ostree.Deploy.Env.{DeployEnv, Work, g_assert}
use rpm_ostree.Deploy.Target.{local_rebase, change_refspec, change_revision, unchanged}
use rpm_ostree.Deploy.Edit.{
  drop_initramfs, apply_cliwrap, remove_layered, skips_base_check, install_layered, install_local,
  idempotent,
}
use rpm_ostree.Deploy.Replace.{change_overrides, merge, pull, remove_overridden}

-- The revision is an empty string.
abbrev pub is_empty_revision : Option Text → Bool
is_empty_revision none = false
is_empty_revision (some revision) = is_empty revision

-- record_driver_info, for a driver that is not NULL and the unit of the caller
unfoldable pub record_driver :
    {O : Type 0} → DeployEnv O → Text → Option Text → Action DeployStep (Unit {0})
record_driver env driver none = throw (codes "could not find caller systemd unit")
record_driver env driver (some unit) =
    call env.mkdir_run_dir >> attempt (record_driver_info driver) env.write_driver_info

module _ {O : Type 0} (env : DeployEnv O) (options : DeployOptions) (m : Modifiers)
    (local : LocalFds) (flags : DeployFlags) where
  -- The environment of the end of the function.
  unfoldable pub finish_env : Option Text → Option Text → Bool → Work O → FinishEnv
  finish_env refspec old_refspec skip w = record {
    flags = flags;
    osname = env.osname;
    refspec = refspec;
    revision = m.set_revision;
    old_refspec = old_refspec;
    skip_base_check = skip;
    changed = w.changed;
    remove_changed = w.remove_changed;
    override_changed = w.override_changed;
    final_kind = (env.api.get_base_refspec w.origin).kind;
    custom_description = env.api.get_origin_custom_description w.origin;
    has_packages = env.api.has_packages w.origin;
    booted_osname = env.booted_osname;
    skip_purge = options.skip_purge;
    apply_live = options.apply_live;
    want_reboot = options.want_reboot;
    get_sack_for_booted = env.get_sack_for_booted;
    update_variant = env.update_variant;
    prep_layering = env.prep_layering (idempotent options) w.origin;
    import = env.import_pkgs_result;
    deploy = env.upgrader_deploy_result w.origin;
    purge = env.purge;
    apply = env.apply;
    inhibitor_locks = env.inhibitor_locks;
  }

  -- The packages to install, those of the repositories first.
  unfoldable pub install_all : Bool → Work O → Action DeployStep (Work O)
  install_all skip w =
      install_layered env options skip (canonical m.install_packages) w
      >>= install_local env
          (λ pkgs origin changed.
            origin_add_local_packages env.api origin pkgs (idempotent options) changed)
          local.install_local
      >>= install_local env
          (λ pkgs origin changed.
            origin_add_local_fileoverride_packages env.api origin pkgs (idempotent options) changed)
          local.install_fileoverride_local

  -- From the option no-initramfs to the point where the origin is computed, and from there to the end.
  unfoldable pub compute_origin : Bool → Work O → Action DeployStep (Work O)
  compute_origin skip w =
      install_all skip w
      >>= change_overrides env options m local
      >>= merge env m.treefile
      >>= pull env flags
      >>= remove_overridden env flags (canonical m.override_remove_packages)

  unfoldable pub edit_and_finish : Option Text → Option Text → O → Action DeployStep (Unit {0})
  edit_and_finish refspec old_refspec origin =
      remove_layered env options m
        (apply_cliwrap env options.ex_cliwrap (drop_initramfs env options (unchanged origin)))
      >>= λ w. skips_base_check env w.origin >>= λ skip.
          compute_origin skip w >>= λ v. finish (finish_env refspec old_refspec skip v)

  -- From the assertions on.
  unfoldable pub transact : Action DeployStep (Unit {0})
  transact =
      g_assert (metadata_only_compatible flags options)
      >> g_assert (no_overrides_compatible options m local)
      >> attempt migrate_pkgcache env.migrate
      >> call (env.upgrader_new (upgrader_flags flags options m))
      >>= λ base_origin. local_rebase env local m.set_refspec >>= λ refspec.
          change_refspec env options refspec base_origin >>= λ r.
          change_revision env options m.set_revision r.0 >>= λ origin.
          edit_and_finish refspec r.1 origin

  -- What follows the title.
  unfoldable pub register_and_transact : Option Text → Action DeployStep (Unit {0})
  register_and_transact none = transact
  register_and_transact (some driver) =
      record_driver env driver env.sd_unit
      >> (if is_empty_revision m.set_revision
          then perform
              (output_message (codes "Empty string revision found; registering update driver only"))
          else transact)

-- What follows the split of the descriptors; `none` is a failed assertion.
module _ {O : Type 0} (env : DeployEnv O) (print_u : ℕ → Text) (options : DeployOptions)
    (m : Modifiers) (flags : DeployFlags) where
  unfoldable pub checked : Option LocalFds → Action DeployStep (Unit {0})
  checked none = g_assert false
  checked (some local) =
      call (check_options options m local)
      >> perform (set_title (title print_u flags options m local options.initiating_command_line))
      >> register_and_transact env options m local flags options.register_driver

  -- deploy_transaction_execute
  unfoldable pub execute_from : Option (List ℕ) → Action DeployStep (Unit {0})
  execute_from fd_list =
      if not (expected_fdn m == actual_fdn fd_list)
      then throw (
          codes "Expected "
          ++ print_u (expected_fdn m)
          ++ codes " fds but received "
          ++ print_u (actual_fdn fd_list))
      else checked (split_fds fd_list m)

-- deploy_transaction_execute, with the flags of the transaction.
unfoldable pub execute :
    {O : Type 0}
    → DeployEnv O
    → (ℕ → Text)
    → DeployOptions
    → Modifiers
    → DeployFlags
    → Option (List ℕ)
    → Action DeployStep (Unit {0})
execute env print_u options m flags fd_list =
    execute_from env print_u options m (execute_flags options (refspec_or_revision m) flags) fd_list
