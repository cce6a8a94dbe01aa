-- ===== src/Upgrader/DeployLaws.antt =====
-- That the calls of a transaction on the upgrader fit together, and what they deploy.
use rpm_ostree.Prelude.{
  ◌≡◌, refl, ◌∙◌, ◌⊎◌, inl, inr, Bool, true, false, not, Option, none, some, [], is_some,
  if◌then◌else◌, arith,
}
use rpm_ostree.Prelude.Text.{Text, codes}
use rpm_ostree.Prelude.Result.{Result, ok, error, prefix_error, Action, pure, do_if, ◌>>=◌}
use rpm_ostree.Prelude.Keeps.{
  Keeps, Succeeds, Yields, pure-Keeps, >>=-Keeps, call-Keeps, attempt-Keeps, if-Keeps, >>=-Yields,
  pure-Yields, Keeps-Yields, branch-Yields,
}
use rpm_ostree.Upgrader.Env.{
  LayerStep, Upgrader, LayerEnv, stage_tree, deploy_tree, stage_overlay_initrd, write_history,
  sanitycheck, set_base_ref, syscore_cleanup, write_deployment,
}
use rpm_ostree.Upgrader.Layering.{prep_layering}
use rpm_ostree.Upgrader.Deploy.{
  import_pkgs, perform_local_assembly, prepared, with_imports, overlay, target_revision,
  deploy_target, check_target, finish_deploy, deploy_assembled, deploy, out_changed,
  imported_if_changed, run_upgrade,
}
use rpm_ostree.Upgrader.LayeringLaws.{
  Ready, EtcRequires, AllSound, Sound-Allows, g_assert-Keeps, ReadyWith, prep_layering-Yields,
  Sound,
}
use rpm_ostree.Upgrader.AssemblyLaws.{
  Deployable, Committed, import_pkgs-Yields, perform_local_assembly-Yields,
}

module _ {O : Type 0} (env : LayerEnv O) (base : Text) where
  overlay-Keeps :
      (v : Upgrader O) → Deployable env base v → Keeps (AllSound env base) (overlay env v.origin)
  unfolding overlay
  overlay-Keeps v able = branch_do-Keeps (env.has_initramfs_etc_files v.origin) (λ h.
      >>=-Keeps (AllSound env base) _ _
        (>>=-Keeps (AllSound env base) _ _
          (g_assert-Keeps env base (not env.lock_layering) (ground (arith, able.etc_unlocked h)))
          (λ _. call-Keeps (AllSound env base) env.overlay_generate))
        (λ _.
          attempt-Keeps (AllSound env base) stage_overlay_initrd
            (prefix_error (codes "Staging initramfs overlay") env.stage_overlay)
            (Sound-Allows env base stage_overlay_initrd tt)))
    where
      branch_do-Keeps :
          {m : Action LayerStep (Unit {0})} (b : Bool)
          → (b ≡ true → Keeps (AllSound env base) m)
          → Keeps (AllSound env base) (do_if b m)
      branch_do-Keeps true keeps = keeps refl
      branch_do-Keeps false keeps = pure-Keeps (AllSound env base) tt

  deploys_sound :
      (v : Upgrader O)
      → Deployable env base v
      → (target_revision env v ≡ base) ⊎ Committed env base (target_revision env v)
  deploys_sound v able = by_final v.final_revision refl
    where
      by_final :
          (f : Option Text)
          → v.final_revision ≡ f
          → (target_revision env v ≡ base) ⊎ Committed env base (target_revision env v)
      by_final none e = inl (ground (arith, e, able.same_base))
      by_final (some final) e = inr (ground (arith, e, able.is_commit final e))

  deploy_target-Keeps :
      (v : Upgrader O)
      → Deployable env base v
      → Keeps (AllSound env base) (deploy_target env (target_revision env v))
  deploy_target-Keeps v able =
      attempt-Keeps (AllSound env base) _ env.deploy_result
        (Sound-Allows env base _ (by_boot env.is_booted))
    where
      by_boot :
          (b : Bool)
          → Sound env base (
              if b then stage_tree (target_revision env v) else deploy_tree (target_revision env v))
      by_boot true = deploys_sound v able
      by_boot false = deploys_sound v able

  check_target-Keeps : (v : Upgrader O) → Keeps (AllSound env base) (check_target env v)
  check_target-Keeps v =
      if-Keeps (AllSound env base) (is_some v.final_revision) _ _
        (attempt-Keeps (AllSound env base) (set_base_ref v.base_revision) env.set_ref_immediate
          (Sound-Allows env base (set_base_ref v.base_revision) tt))
        (>>=-Keeps (AllSound env base) _ _ (call-Keeps (AllSound env base) env.open_deployment)
          (λ _.
            attempt-Keeps (AllSound env base) sanitycheck env.sanitycheck_true
              (Sound-Allows env base sanitycheck tt)))

  finish_deploy-Keeps : Keeps (AllSound env base) (finish_deploy env)
  finish_deploy-Keeps =
      if-Keeps (AllSound env base) env.is_booted _ _
        (attempt-Keeps (AllSound env base) syscore_cleanup env.cleanup_result
          (Sound-Allows env base syscore_cleanup tt))
        (attempt-Keeps (AllSound env base) write_deployment env.write_result
          (Sound-Allows env base write_deployment tt))

  deploy_assembled-Keeps :
      (v : Upgrader O) → Deployable env base v → Keeps (AllSound env base) (deploy_assembled env v)
  unfolding deploy_assembled
  deploy_assembled-Keeps v able =
      >>=-Keeps (AllSound env base) _ _
        (>>=-Keeps (AllSound env base) _ _
          (>>=-Keeps (AllSound env base) _ _
            (>>=-Keeps (AllSound env base) _ _ (overlay-Keeps v able)
              (λ _. deploy_target-Keeps v able))
            (λ _.
              attempt-Keeps (AllSound env base) write_history env.history_result
                (Sound-Allows env base write_history tt)))
          (λ _. check_target-Keeps v))
        (λ _. finish_deploy-Keeps)

  prepared-Yields :
      (u : Upgrader O)
      → Ready env base u
      → Yields (AllSound env base) (Ready env base) (prepared env u)
  prepared-Yields u ready =
      branch-Yields (AllSound env base) (Ready env base) u.layering_initialized (pure u)
        (prep_layering env u) (λ h. pure-Yields (AllSound env base) (Ready env base) u ready)
        (λ h. absurd (ground (arith, h, ready.is_initialized)))

  with_imports-Yields :
      (u : Upgrader O)
      → Ready env base u
      → Yields (AllSound env base) (ReadyWith env base true) (with_imports env u)
  with_imports-Yields u ready =
      branch-Yields (AllSound env base) (ReadyWith env base true) u.pkgs_imported (pure u)
        (import_pkgs env u)
        (λ h. pure-Yields (AllSound env base) (ReadyWith env base true) u (ready, h))
        (λ h. import_pkgs-Yields env base u (ready, h))

  deploy-Yields :
      (u : Upgrader O)
      → Ready env base u
      → Yields (AllSound env base) (λ _. Unit {0}) (deploy env u)
  unfolding deploy
  deploy-Yields u ready =
      branch-Yields (AllSound env base) (λ _. Unit {0}) env.dry_run _ _
        (λ h. pure-Yields (AllSound env base) (λ _. Unit {0}) tt tt)
        (λ h.
          >>=-Yields (AllSound env base) (Deployable env base) (λ _. Unit {0})
            (prepared env u >>= with_imports env >>= perform_local_assembly env)
            (deploy_assembled env)
            (>>=-Yields (AllSound env base) (ReadyWith env base true) (Deployable env base)
              (prepared env u >>= with_imports env) (perform_local_assembly env)
              (>>=-Yields (AllSound env base) (Ready env base) (ReadyWith env base true)
                (prepared env u) (with_imports env) (prepared-Yields u ready) with_imports-Yields)
              (perform_local_assembly-Yields env base))
            (λ v able.
              Keeps-Yields (AllSound env base) (deploy_assembled env v)
                (deploy_assembled-Keeps v able)))

  imported_if_changed-Yields :
      (u : Upgrader O)
      → ReadyWith env base false u
      → Yields (AllSound env base) (Ready env base) (imported_if_changed env u)
  imported_if_changed-Yields u (ready, fresh) =
      branch-Yields (AllSound env base) (Ready env base) (out_changed env u) (import_pkgs env u)
        (pure u) (λ h. weaken (import_pkgs-Yields env base u (ready, fresh)))
        (λ h. pure-Yields (AllSound env base) (Ready env base) u ready)
    where
      forget :
          (r : Result (Upgrader O))
          → Succeeds (ReadyWith env base true) r
          → Succeeds (Ready env base) r
      forget (ok v) q = q.0
      forget (error e) q = tt

      weaken :
          {m : Action LayerStep (Upgrader O)}
          → Yields (AllSound env base) (ReadyWith env base true) m
          → Yields (AllSound env base) (Ready env base) m
      weaken {m} y = record { at = λ log p. ((y.at log p).0, forget (m log).0 (y.at log p).1) }

-- Where files that are tracked for the initramfs require an assembly, and nothing is imported or assembled
-- yet: whatever calls fail on the way, a transaction that prepares the layering, imports the packages where
-- that changed something, and deploys, fails no assertion on the state of the upgrader, and each tree that it
-- stages or deploys is the base revision or the commit of the assembly.
pub run_upgrade-AllSound :
    {O : Type 0} (env : LayerEnv O) (u : Upgrader O)
    → EtcRequires env
    → u.pkgs_imported ≡ false
    → u.has_context ≡ false
    → AllSound env u.base_revision (run_upgrade env u []).1
unfolding run_upgrade
run_upgrade-AllSound env u etc fresh c =
    ((>>=-Yields (AllSound env u.base_revision) (ReadyWith env u.base_revision u.pkgs_imported)
        (λ _. Unit {0}) (prep_layering env u) (λ v. imported_if_changed env v >>= deploy env)
        (prep_layering-Yields env u.base_revision u etc refl c)
        (λ v ready.
          >>=-Yields (AllSound env u.base_revision) (Ready env u.base_revision) (λ _. Unit {0})
            (imported_if_changed env v) (deploy env)
            (imported_if_changed-Yields env u.base_revision v (ready.0, ready.1 ∙ fresh))
            (deploy-Yields env u.base_revision))).at
      [] tt).0
