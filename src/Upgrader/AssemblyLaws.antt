-- ===== src/Upgrader/AssemblyLaws.antt =====
-- The import and the assembly of the upgrader keep its state in order, and the trace sound.
use rpm_ostree.Prelude.{◌≡◌, refl, subst, true, false, not, ◌||◌, some, arith}
use rpm_ostree.Prelude.Text.{Text, codes}
use rpm_ostree.Prelude.Result.{
  Result, ok, error, prefix_error, Action, pure, call, perform, ◌>>=◌, ◌>>◌,
}
use rpm_ostree.Prelude.Keeps.{
  Keeps, Succeeds, Yields, pure-Keeps, >>=-Keeps, call-Keeps, perform-Keeps, attempt-Keeps,
  do_if-Keeps, if-Keeps, >>=-Yields, pure-Yields, Keeps-Yields, branch-Yields,
}
use rpm_ostree.Upgrader.Env.{
  LayerStep, Upgrader, LayerEnv, download_packages, import_packages, assemble, assemble_end,
  run_depmod, run_dracut, commit_root, is_layering_none, is_rpmmd_repos, g_assert,
}
use rpm_ostree.Upgrader.Deploy.{
  fetch_packages, import_pkgs, regenerate, assemble_kind, perform_local_assembly,
}
use rpm_ostree.Upgrader.LayeringLaws.{Ready, AllSound, Sound-Allows, g_assert-Keeps, ReadyWith}

module _ {O : Type 0} (env : LayerEnv O) (base : Text) where
  fetch_packages-Keeps :
      (u : Upgrader O) → Keeps (AllSound env base) (fetch_packages env u.layering_type)
  fetch_packages-Keeps u = do_if-Keeps (AllSound env base) (is_rpmmd_repos u.layering_type) _ (
      >>=-Keeps (AllSound env base) _ _
        (attempt-Keeps (AllSound env base) download_packages env.context_download
          (Sound-Allows env base download_packages tt))
        (λ _.
          attempt-Keeps (AllSound env base) import_packages env.context_import
            (Sound-Allows env base import_packages tt)))

  pub import_pkgs-Yields :
      (u : Upgrader O)
      → ReadyWith env base false u
      → Yields (AllSound env base) (ReadyWith env base true) (import_pkgs env u)
  unfolding import_pkgs
  import_pkgs-Yields u (ready, fresh) =
      >>=-Yields (AllSound env base) (λ _. Unit {0}) (ReadyWith env base true)
        (g_assert u.layering_initialized
          >> g_assert (not u.pkgs_imported)
          >> fetch_packages env u.layering_type)
        (λ _. pure (record u { pkgs_imported = true }))
        (Keeps-Yields (AllSound env base) _ (
          >>=-Keeps (AllSound env base) _ _
            (>>=-Keeps (AllSound env base) _ _
              (g_assert-Keeps env base u.layering_initialized ready.is_initialized)
              (λ _. g_assert-Keeps env base (not u.pkgs_imported) (ground (arith, fresh))))
            (λ _. fetch_packages-Keeps u)))
        (λ _ e.
          pure-Yields (AllSound env base) (ReadyWith env base true)
            (record u { pkgs_imported = true }) (imported u ready, refl))
    where
      imported :
          (v : Upgrader O) → Ready env base v → Ready env base (record v { pkgs_imported = true })
      imported v r = record {
        is_initialized = r.is_initialized;
        same_base = r.same_base;
        unlocked = r.unlocked;
        etc_unlocked = r.etc_unlocked;
        no_final = r.no_final;
      }

  regenerate-Keeps : (o : O) → Keeps (AllSound env base) (regenerate env o)
  unfolding regenerate
  regenerate-Keeps o =
      if-Keeps (AllSound env base) (env.kernel_changed || env.get_regenerate_initramfs o) _ _
        (>>=-Keeps (AllSound env base) _ _
          (>>=-Keeps (AllSound env base) _ _ (call-Keeps (AllSound env base) env.find_kernel)
            (λ _. call-Keeps (AllSound env base) env.base_initramfs_args))
          (λ args.
            >>=-Keeps (AllSound env base) _ _
              (>>=-Keeps (AllSound env base) _ _
                (do_if-Keeps (AllSound env base) env.kernel_changed _ (
                  attempt-Keeps (AllSound env base) run_depmod env.depmod
                    (Sound-Allows env base run_depmod tt)))
                (λ _.
                  attempt-Keeps (AllSound env base) _ env.dracut
                    (Sound-Allows env base (run_dracut _ _) tt)))
              (λ _.
                call-Keeps (AllSound env base)
                  (prefix_error (codes "Finalizing kernel") env.finalize_kernel))))
        (pure-Keeps (AllSound env base) tt)

  -- A state after perform_local_assembly.
  pub record Deployable (v : Upgrader O) : Type 0 where
    pub same_base : v.base_revision ≡ base
    pub etc_unlocked : env.has_initramfs_etc_files v.origin ≡ true → env.lock_layering ≡ false
    pub is_commit : (final : Text) → v.final_revision ≡ some final → env.context_commit ≡ ok final

  abbrev pub Committed : Text → Type 0
  Committed final = env.context_commit ≡ ok final

  commit-Yields :
      (prefix : Text)
      → Yields (AllSound env base) Committed (call (prefix_error prefix env.context_commit))
  commit-Yields prefix = record { at = λ log p. (p, succeeds env.context_commit) }
    where
      succeeds : (r : Result Text) → Succeeds (λ final. r ≡ ok final) (prefix_error prefix r)
      succeeds (ok final) = refl
      succeeds (error e) = tt

  assemble_kind-Keeps :
      (u : Upgrader O) → Keeps (AllSound env base) (assemble_kind env u.layering_type)
  assemble_kind-Keeps u =
      if-Keeps (AllSound env base) (is_rpmmd_repos u.layering_type) _ _
        (attempt-Keeps (AllSound env base) assemble env.context_assemble
          (Sound-Allows env base assemble tt))
        (attempt-Keeps (AllSound env base) assemble_end env.context_assemble_end
          (Sound-Allows env base assemble_end tt))

  abbrev with_final : Upgrader O → Text → Upgrader O
  with_final u final = record u { final_revision = some final; has_context = false }

  abbrev assembled : Upgrader O → Action LayerStep (Unit {0})
  assembled u =
      g_assert (not env.lock_layering)
      >> assemble_kind env u.layering_type
      >> call env.postprocess_common
      >> regenerate env u.origin

  assembled-Keeps :
      (u : Upgrader O) → env.lock_layering ≡ false → Keeps (AllSound env base) (assembled u)
  assembled-Keeps u l =
      >>=-Keeps (AllSound env base) _ _
        (>>=-Keeps (AllSound env base) _ _
          (>>=-Keeps (AllSound env base) _ _
            (g_assert-Keeps env base (not env.lock_layering) (ground (arith, l)))
            (λ _. assemble_kind-Keeps u))
          (λ _. call-Keeps (AllSound env base) env.postprocess_common))
        (λ _. regenerate-Keeps u.origin)

  with_final-Deployable :
      (u : Upgrader O) (final : Text)
      → Ready env base u
      → Committed final
      → Deployable (with_final u final)
  with_final-Deployable u final ready c = record {
    same_base = ready.same_base;
    etc_unlocked = ready.etc_unlocked;
    is_commit = λ other e. subst Committed (ground (arith, e)) c;
  }

  no_final-Deployable :
      (u : Upgrader O) → Ready env base u → is_layering_none u.layering_type ≡ true → Deployable u
  no_final-Deployable u ready n = record {
    same_base = ready.same_base;
    etc_unlocked = ready.etc_unlocked;
    is_commit = λ other e. absurd (ground (arith, e, ready.no_final n));
  }

  commit_root-Yields :
      (u : Upgrader O)
      → Ready env base u
      → env.lock_layering ≡ false
      → Yields (AllSound env base) Deployable (
          assembled u >> call (prefix_error (codes "Committing") env.context_commit) >>= λ final.
          perform commit_root >> pure (with_final u final))
  commit_root-Yields u ready l =
      >>=-Yields (AllSound env base) Committed Deployable
        (assembled u >> call (prefix_error (codes "Committing") env.context_commit))
        (λ final. perform commit_root >> pure (with_final u final))
        (>>=-Yields (AllSound env base) (λ _. Unit {0}) Committed (assembled u)
          (λ _. call (prefix_error (codes "Committing") env.context_commit))
          (Keeps-Yields (AllSound env base) (assembled u) (assembled-Keeps u l))
          (λ _ e. commit-Yields (codes "Committing")))
        (λ final c.
          >>=-Yields (AllSound env base) (λ _. Unit {0}) Deployable (perform commit_root)
            (λ _. pure (with_final u final))
            (Keeps-Yields (AllSound env base) (perform commit_root) (
              perform-Keeps (AllSound env base) commit_root (Sound-Allows env base commit_root tt)))
            (λ _ e.
              pure-Yields (AllSound env base) Deployable (with_final u final)
                (with_final-Deployable u final ready c)))

  pub perform_local_assembly-Yields :
      (u : Upgrader O)
      → ReadyWith env base true u
      → Yields (AllSound env base) Deployable (perform_local_assembly env u)
  unfolding perform_local_assembly
  perform_local_assembly-Yields u (ready, imported) =
      >>=-Yields (AllSound env base) (λ _. Unit {0}) Deployable
        (g_assert u.layering_initialized >> g_assert u.pkgs_imported) _
        (Keeps-Yields (AllSound env base) _ (
          >>=-Keeps (AllSound env base) _ _
            (g_assert-Keeps env base u.layering_initialized ready.is_initialized)
            (λ _. g_assert-Keeps env base u.pkgs_imported imported)))
        (λ _ e.
          branch-Yields (AllSound env base) Deployable (is_layering_none u.layering_type) _ _
            (λ n. pure-Yields (AllSound env base) Deployable u (no_final-Deployable u ready n))
            (λ n. commit_root-Yields u ready (ready.unlocked n)))
