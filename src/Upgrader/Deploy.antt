-- ===== src/Upgrader/Deploy.antt =====
-- How the upgrader imports, assembles and deploys: rpmostree_sysroot_upgrader_import_pkgs,
-- perform_local_assembly and rpmostree_sysroot_upgrader_deploy of
-- src/daemon/rpmostree-sysroot-upgrader.cxx.
use rpm_ostree.Prelude.{
  Bool, true, false, not, ◌&&◌, ◌||◌, Option, none, some, List, [], ◌∷◌, ◌++◌, if◌then◌else◌,
  is_some,
}
use rpm_ostree.Prelude.Text.{Text, codes}
use rpm_ostree.Prelude.Result.{
  prefix_error, Action, pure, call, perform, attempt, do_if, ◌>>=◌, ◌>>◌,
}
use rpm_ostree.Deploy.Finish.{LayeringType}
use rpm_ostree.Upgrader.Env.{
  LayerStep, Upgrader, LayerEnv, is_layering_none, is_rpmmd_repos, g_assert, download_packages,
  import_packages, assemble, assemble_end, run_depmod, run_dracut, commit_root,
  stage_overlay_initrd, stage_tree, deploy_tree, write_history, sanitycheck, set_base_ref,
  syscore_cleanup, write_deployment,
}
use rpm_ostree.Upgrader.Layering.{prep_layering}

module _ {O : Type 0} (env : LayerEnv O) where
  abbrev pub fetch_packages : LayeringType → Action LayerStep (Unit {0})
  fetch_packages kind =
      do_if (is_rpmmd_repos kind) (
        attempt download_packages env.context_download
        >> attempt import_packages env.context_import)

  -- rpmostree_sysroot_upgrader_import_pkgs
  unfoldable pub import_pkgs : Upgrader O → Action LayerStep (Upgrader O)
  import_pkgs u =
      g_assert u.layering_initialized
      >> g_assert (not u.pkgs_imported)
      >> fetch_packages u.layering_type
      >> pure (record u { pkgs_imported = true })

  abbrev pub base_args : Option (List Text) → List Text
  base_args none = codes "--no-hostonly" ∷ []
  base_args (some args) = args

  abbrev pub added_args : O → List Text
  added_args origin =
      if env.get_regenerate_initramfs origin then env.get_initramfs_args origin else []

  -- The kernel and the initramfs in perform_local_assembly.
  unfoldable pub regenerate : O → Action LayerStep (Unit {0})
  regenerate origin =
      if env.kernel_changed || env.get_regenerate_initramfs origin
      then (call env.find_kernel >> call env.base_initramfs_args >>= λ args.
          do_if env.kernel_changed (attempt run_depmod env.depmod)
          >> attempt
              (run_dracut (base_args args ++ added_args origin)
                (env.get_regenerate_initramfs origin))
              env.dracut
          >> call (prefix_error (codes "Finalizing kernel") env.finalize_kernel))
      else pure tt

  abbrev pub assemble_kind : LayeringType → Action LayerStep (Unit {0})
  assemble_kind kind =
      if is_rpmmd_repos kind
      then attempt assemble env.context_assemble
      else attempt assemble_end env.context_assemble_end

  -- perform_local_assembly
  unfoldable pub perform_local_assembly : Upgrader O → Action LayerStep (Upgrader O)
  perform_local_assembly u =
      g_assert u.layering_initialized
      >> g_assert u.pkgs_imported
      >> (if is_layering_none u.layering_type
          then pure u
          else (g_assert (not env.lock_layering)
              >> assemble_kind u.layering_type
              >> call env.postprocess_common
              >> regenerate u.origin
              >> call (prefix_error (codes "Committing") env.context_commit)
              >>= λ final.
                  perform commit_root
                  >> pure (record u { final_revision = some final; has_context = false })))

  abbrev pub prepared : Upgrader O → Action LayerStep (Upgrader O)
  prepared u = if u.layering_initialized then pure u else prep_layering env u

  abbrev pub with_imports : Upgrader O → Action LayerStep (Upgrader O)
  with_imports u = if u.pkgs_imported then pure u else import_pkgs u

  -- The overlay initramfs of tracked files.
  unfoldable pub overlay : O → Action LayerStep (Unit {0})
  overlay origin = do_if (env.has_initramfs_etc_files origin) (
      g_assert (not env.lock_layering)
      >> call env.overlay_generate
      >> attempt stage_overlay_initrd
          (prefix_error (codes "Staging initramfs overlay") env.stage_overlay))

  abbrev pub target_revision : Upgrader O → Text
  target_revision u = elim u.final_revision [ none ↦ u.base_revision | some final ↦ final ]

  abbrev pub deploy_target : Text → Action LayerStep (Unit {0})
  deploy_target revision =
      attempt (if env.is_booted then stage_tree revision else deploy_tree revision)
        env.deploy_result

  abbrev pub check_target : Upgrader O → Action LayerStep (Unit {0})
  check_target u =
      if is_some u.final_revision
      then attempt (set_base_ref u.base_revision) env.set_ref_immediate
      else (call env.open_deployment >> attempt sanitycheck env.sanitycheck_true)

  abbrev pub finish_deploy : Action LayerStep (Unit {0})
  finish_deploy =
      if env.is_booted
      then attempt syscore_cleanup env.cleanup_result
      else attempt write_deployment env.write_result

  -- What follows perform_local_assembly.
  unfoldable pub deploy_assembled : Upgrader O → Action LayerStep (Unit {0})
  deploy_assembled u =
      overlay u.origin
      >> deploy_target (target_revision u)
      >> attempt write_history env.history_result
      >> check_target u
      >> finish_deploy

  -- rpmostree_sysroot_upgrader_deploy
  unfoldable pub deploy : Upgrader O → Action LayerStep (Unit {0})
  deploy u =
      if env.dry_run
      then pure tt
      else (prepared u >>= with_imports >>= perform_local_assembly >>= deploy_assembled)

  abbrev pub out_changed : Upgrader O → Bool
  out_changed u = not (is_layering_none u.layering_type) && u.layering_changed

  abbrev pub imported_if_changed : Upgrader O → Action LayerStep (Upgrader O)
  imported_if_changed u = if out_changed u then import_pkgs u else pure u

  -- What deploy_transaction_execute does with the upgrader once the origin is computed, where it goes on to
  -- a deployment.
  unfoldable pub run_upgrade : Upgrader O → Action LayerStep (Unit {0})
  run_upgrade u = prep_layering env u >>= λ v. imported_if_changed v >>= deploy
