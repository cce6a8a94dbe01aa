-- ===== src/Deploy/InertLaws.antt =====
-- That a dry run, a download and a check for updates deploy nothing.
use rpm_ostree.Prelude.{
  ℕ, ◌≡◌, refl, ◌∙◌, Bool, true, false, ◌||◌, Option, List, [], ◌∷◌, ◌++◌, any, is_some, arith,
}
use rpm_ostree.Prelude.Text.{Text}
use rpm_ostree.Prelude.Result.{call}
use rpm_ostree.Prelude.Keeps.{
  Keeps, Allows, pure-Keeps, throw-Keeps, >>=-Keeps, call-Keeps, perform-Keeps, attempt-Keeps,
  if-Keeps, do_if-Keeps, branch-Keeps,
}
use rpm_ostree.Deploy.Request.{DeployFlags, DeployOptions, Modifiers, execute_flags}
use rpm_ostree.Deploy.Check.{refspec_or_revision}
use rpm_ostree.Deploy.Finish.{
  LayeringType, DeployStep, output_message, generate_update_variant, import_pkgs, set_caller_info,
  upgrader_deploy, purge_refspec, transaction_apply_live, daemon_reboot, FinishEnv, finish,
  update_metadata, deploy_changes, apply_changes, report_no_change, after_layering,
}
use rpm_ostree.Deploy.EditLaws.{prepares}
use rpm_ostree.Deploy.Env.{DeployEnv}
use rpm_ostree.Deploy.Execute.{execute, finish_env}
use rpm_ostree.Deploy.ExecuteLaws.{execute_from-Keeps}

-- A step that makes a deployment, or that comes after one.
abbrev pub commits : DeployStep → Bool
commits upgrader_deploy = true
commits (purge_refspec old) = true
commits transaction_apply_live = true
commits daemon_reboot = true
commits _ = false

abbrev Inert : List DeployStep → Type 0
Inert log = any commits log ≡ false

-- The flags ask for less than a deployment.
abbrev pub stops_short : DeployFlags → Bool
stops_short flags = flags.dry_run || flags.download_only || flags.download_metadata_only

append-Inert :
    (log : List DeployStep) (s : DeployStep) → commits s ≡ false → Inert log → Inert (log ++ s ∷ [])
append-Inert [] s e h = ground (arith, e)
append-Inert (first ∷ log) s e h = ground (arith, e, h, append-Inert log s e)

Inert-Allows : (s : DeployStep) → commits s ≡ false → Allows Inert s
Inert-Allows s e log h = append-Inert log s e h

deploy_changes-Inert :
    (env : FinishEnv) (changed : Bool)
    → env.flags.download_only ≡ true
    → Keeps Inert (deploy_changes env changed)
unfolding deploy_changes
deploy_changes-Inert env changed e =
    branch-Keeps Inert env.flags.download_only _ _
      (λ _. perform-Keeps Inert _ (Inert-Allows (output_message _) refl)) (λ f. cc)

apply_changes-Inert :
    (env : FinishEnv) (kind : LayeringType) (layering_changed changed : Bool)
    → (env.flags.dry_run || env.flags.download_only) ≡ true
    → Keeps Inert (apply_changes env kind layering_changed changed)
unfolding apply_changes report_no_change
apply_changes-Inert env kind layering_changed changed e =
    branch-Keeps Inert env.flags.dry_run _ _ (λ _. pure-Keeps Inert tt)
      (λ f.
        >>=-Keeps Inert _ _
          (>>=-Keeps Inert _ _
            (do_if-Keeps Inert layering_changed _
              (attempt-Keeps Inert import_pkgs env.import (Inert-Allows import_pkgs refl)))
            (λ _. perform-Keeps Inert set_caller_info (Inert-Allows set_caller_info refl)))
          (λ _.
            if-Keeps Inert (changed || is_some env.refspec) _ _
              (deploy_changes-Inert env changed (ground (arith, e, f)))
              (perform-Keeps Inert _ (Inert-Allows (output_message _) refl))))

after_layering-Inert :
    (env : FinishEnv) (r : LayeringType × Bool)
    → (env.flags.dry_run || env.flags.download_only) ≡ true
    → Keeps Inert (after_layering env r)
unfolding after_layering
after_layering-Inert env (kind, layering_changed) e =
    if-Keeps Inert _ _ _ (perform-Keeps Inert _ (Inert-Allows (output_message _) refl))
      (apply_changes-Inert env kind layering_changed _ e)

update_metadata-Inert : (env : FinishEnv) → Keeps Inert (update_metadata env)
unfolding update_metadata
update_metadata-Inert env = if-Keeps Inert _ _ _ (throw-Keeps Inert _) (
    >>=-Keeps Inert _ _
      (do_if-Keeps Inert env.has_packages _ (call-Keeps Inert env.get_sack_for_booted))
      (λ _.
        attempt-Keeps Inert (generate_update_variant false) env.update_variant
          (Inert-Allows (generate_update_variant false) refl)))

finish-Inert : (env : FinishEnv) → stops_short env.flags ≡ true → Keeps Inert (finish env)
unfolding finish
finish-Inert env e =
    branch-Keeps Inert env.flags.download_metadata_only _ _ (λ _. update_metadata-Inert env)
      (λ f.
        >>=-Keeps Inert (call env.prep_layering) _ (call-Keeps Inert env.prep_layering)
          (λ r. after_layering-Inert env r (ground (arith, e, f))))

prepares-Inert : (s : DeployStep) → prepares s ≡ true → Allows Inert s
prepares-Inert s e = Inert-Allows s (ground (arith, e))

execute_flags-stops_short :
    (options : DeployOptions) (b : Bool) (flags : DeployFlags)
    → stops_short (execute_flags options b flags) ≡ stops_short flags
unfolding execute_flags
execute_flags-stops_short options b flags = ground arith

-- Whatever the request is and whatever calls fail on the way, a dry run, a download and a check for
-- updates make no deployment, purge no ref, apply nothing live and start no reboot.
pub execute-Inert :
    {O : Type 0} (env : DeployEnv O) (print_u : ℕ → Text) (options : DeployOptions) (m : Modifiers)
    (flags : DeployFlags) (fd_list : Option (List ℕ))
    → stops_short flags ≡ true
    → any commits (execute env print_u options m flags fd_list []).1 ≡ false
unfolding execute finish_env
execute-Inert env print_u options m flags fd_list e =
    (execute_from-Keeps Inert prepares-Inert env options m _
        (λ local refspec old skip w.
          finish-Inert _ (execute_flags-stops_short options (refspec_or_revision m) flags ∙ e))
        print_u fd_list).at
      [] refl
