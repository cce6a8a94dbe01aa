-- ===== src/Deploy/FinishLaws.antt =====
-- When a transaction deploys, and what comes only after that.
use rpm_ostree.Prelude.{
  ◌≡◌, refl, Bool, true, false, not, ◌&&◌, ◌||◌, Option, none, some, List, [], ◌∷◌, ◌++◌,
  if◌then◌else◌, is_some, any, arith,
}
use rpm_ostree.Prelude.Text.{Text, codes}
use rpm_ostree.Prelude.Result.{Result, ok, error, Action, call, attempt, ◌>>◌}
use rpm_ostree.Prelude.Keeps.{
  Keeps, Allows, pure-Keeps, throw-Keeps, >>=-Keeps, call-Keeps, perform-Keeps, attempt-Keeps,
  do_if-Keeps, if-Keeps,
}
use rpm_ostree.Txn.Effects.{vardict_lookup_bool}
use rpm_ostree.Deploy.Finish.{
  LayeringType, DeployStep, output_message, generate_update_variant, import_pkgs, set_caller_info,
  upgrader_deploy, purge_refspec, transaction_apply_live, daemon_reboot, FinishEnv, is_upgrade,
  update_metadata, purge_old, live_or_reboot, after_deploy, deploy_changes, report_no_change,
  apply_changes, after_layering, finish,
}

abbrev pub is_deploy : DeployStep → Bool
is_deploy upgrader_deploy = true
is_deploy _ = false

abbrev pub needs_deploy : DeployStep → Bool
needs_deploy (purge_refspec old) = true
needs_deploy transaction_apply_live = true
needs_deploy daemon_reboot = true
needs_deploy _ = false

-- Purging a ref, applying live and rebooting come after the deployment in the list; `deployed` tells
-- whether it has been seen.
abbrev pub ordered : Bool → List DeployStep → Bool
ordered deployed [] = true
ordered deployed (step ∷ steps) =
    (deployed || not (needs_deploy step)) && ordered (deployed || is_deploy step) steps

abbrev pub Ordered : List DeployStep → Type 0
Ordered steps = ordered false steps ≡ true

-- The trace is in order, and a deployment was made.
abbrev Deployed : List DeployStep → Type 0
Deployed steps = Ordered steps × (any is_deploy steps ≡ true)

ordered-append :
    (deployed : Bool) (steps : List DeployStep) (step : DeployStep)
    → ordered deployed (steps ++ step ∷ [])
      ≡ (ordered deployed steps && ordered (deployed || any is_deploy steps) (step ∷ []))
ordered-append deployed [] step = ground arith
ordered-append deployed (first ∷ steps) step =
    ground (arith, ordered-append (deployed || is_deploy first) steps step)

pub any-append :
    (steps : List DeployStep) (step : DeployStep)
    → any is_deploy (steps ++ step ∷ []) ≡ (any is_deploy steps || is_deploy step)
any-append [] step = ground arith
any-append (first ∷ steps) step = ground (arith, any-append steps step)

Deployed-Allows : (step : DeployStep) → Allows Deployed step
Deployed-Allows step log p = ground (arith, p, ordered-append false log step, any-append log step)

pub Ordered-Allows : (step : DeployStep) → needs_deploy step ≡ false → Allows Ordered step
Ordered-Allows step h log p = ground (arith, p, h, ordered-append false log step)

purge_old-Keeps : (env : FinishEnv) (old : Option Text) → Keeps Deployed (purge_old env old)
purge_old-Keeps env none = pure-Keeps Deployed tt
purge_old-Keeps env (some old) =
    do_if-Keeps Deployed _ _
      (attempt-Keeps Deployed (purge_refspec old) env.purge (Deployed-Allows (purge_refspec old)))

live_or_reboot-Keeps : (env : FinishEnv) → Keeps Deployed (live_or_reboot env)
live_or_reboot-Keeps env =
    if-Keeps Deployed (vardict_lookup_bool env.apply_live false) _ _
      (attempt-Keeps Deployed transaction_apply_live env.apply
        (Deployed-Allows transaction_apply_live))
      (do_if-Keeps Deployed (vardict_lookup_bool env.want_reboot false) _ (
        >>=-Keeps Deployed (call env.inhibitor_locks) _ (call-Keeps Deployed env.inhibitor_locks)
          (λ _. perform-Keeps Deployed daemon_reboot (Deployed-Allows daemon_reboot))))

after_deploy-Keeps : (env : FinishEnv) → Keeps Deployed (after_deploy env)
unfolding after_deploy
after_deploy-Keeps env =
    >>=-Keeps Deployed _ _
      (>>=-Keeps Deployed (purge_old env env.old_refspec) _ (purge_old-Keeps env env.old_refspec)
        (λ _. do_if-Keeps Deployed (is_upgrade env) _ (
          attempt-Keeps Deployed (generate_update_variant true) env.update_variant
            (Deployed-Allows (generate_update_variant true)))))
      (λ _. live_or_reboot-Keeps env)

deploy-Deployed : (log : List DeployStep) → Ordered log → Deployed (log ++ upgrader_deploy ∷ [])
deploy-Deployed log p =
    ground (arith, p, ordered-append false log upgrader_deploy, any-append log upgrader_deploy)

deploy_first :
    (r : Result (Unit {0})) (m : Action DeployStep (Unit {0}))
    → Keeps Deployed m
    → Keeps Ordered (attempt upgrader_deploy r >> m)
deploy_first (ok u) m keeps = record {
  at = λ log p. (keeps.at (log ++ upgrader_deploy ∷ []) (deploy-Deployed log p)).0;
}
deploy_first (error e) m keeps = record { at = λ log p. p }

deploy_changes-Keeps :
    (env : FinishEnv) (changed : Bool) → Keeps Ordered (deploy_changes env changed)
unfolding deploy_changes
deploy_changes-Keeps env changed =
    if-Keeps Ordered env.flags.download_only _ _
      (perform-Keeps Ordered _ (Ordered-Allows (output_message _) refl))
      (deploy_first env.deploy (after_deploy env) (after_deploy-Keeps env))

apply_changes-Keeps :
    (env : FinishEnv) (kind : LayeringType) (layering_changed changed : Bool)
    → Keeps Ordered (apply_changes env kind layering_changed changed)
unfolding apply_changes report_no_change
apply_changes-Keeps env kind layering_changed changed =
    if-Keeps Ordered env.flags.dry_run _ _ (pure-Keeps Ordered tt) (
      >>=-Keeps Ordered _ _
        (>>=-Keeps Ordered _ _
          (do_if-Keeps Ordered layering_changed _
            (attempt-Keeps Ordered import_pkgs env.import (Ordered-Allows import_pkgs refl)))
          (λ _. perform-Keeps Ordered set_caller_info (Ordered-Allows set_caller_info refl)))
        (λ _.
          if-Keeps Ordered (changed || is_some env.refspec) _ _ (deploy_changes-Keeps env changed)
            (perform-Keeps Ordered _ (Ordered-Allows (output_message _) refl))))

after_layering-Keeps :
    (env : FinishEnv) (r : LayeringType × Bool) → Keeps Ordered (after_layering env r)
unfolding after_layering
after_layering-Keeps env (kind, layering_changed) =
    if-Keeps Ordered _ _ _ (perform-Keeps Ordered _ (Ordered-Allows (output_message _) refl))
      (apply_changes-Keeps env kind layering_changed _)

update_metadata-Keeps : (env : FinishEnv) → Keeps Ordered (update_metadata env)
unfolding update_metadata
update_metadata-Keeps env = if-Keeps Ordered _ _ _ (throw-Keeps Ordered _) (
    >>=-Keeps Ordered _ _
      (do_if-Keeps Ordered env.has_packages _ (call-Keeps Ordered env.get_sack_for_booted))
      (λ _.
        attempt-Keeps Ordered (generate_update_variant false) env.update_variant
          (Ordered-Allows (generate_update_variant false) refl)))

-- No old ref is purged, nothing is applied live and no reboot is started unless the new deployment was
-- made before.
pub finish-Keeps : (env : FinishEnv) → Keeps Ordered (finish env)
unfolding finish
finish-Keeps env =
    if-Keeps Ordered env.flags.download_metadata_only _ _ (update_metadata-Keeps env) (
      >>=-Keeps Ordered (call env.prep_layering) _ (call-Keeps Ordered env.prep_layering)
        (after_layering-Keeps env))

deploy_changes-any :
    (env : FinishEnv) (changed : Bool) (log : List DeployStep)
    → env.deploy ≡ ok tt
    → Ordered log
    → any is_deploy (deploy_changes env changed log).1
      ≡ (any is_deploy log || not env.flags.download_only)
unfolding deploy_changes
deploy_changes-any env changed log deployed p = ground (
  arith,
  deployed,
  any-append log
      (output_message (if changed then codes "Update downloaded." else codes "No changes.")),
  (after_deploy-Keeps env).at (log ++ upgrader_deploy ∷ []) (deploy-Deployed log p),
)

apply_changes-any :
    (env : FinishEnv) (kind : LayeringType) (layering_changed changed : Bool)
    → env.import ≡ ok tt
    → env.deploy ≡ ok tt
    → any is_deploy (apply_changes env kind layering_changed changed []).1
      ≡ (not env.flags.dry_run && (not env.flags.download_only && (changed || is_some env.refspec)))
unfolding apply_changes report_no_change
apply_changes-any env kind layering_changed changed imported deployed = ground (
  arith,
  imported,
  deployed,
  deploy_changes-any env changed (set_caller_info ∷ []) deployed refl,
  deploy_changes-any env changed (import_pkgs ∷ set_caller_info ∷ []) deployed refl,
)

-- Something differs from the deployment at the start.
abbrev pub differs : FinishEnv → Bool → Bool
differs env layering_changed =
    (env.changed || layering_changed) || env.remove_changed || env.override_changed

update_metadata-any : (env : FinishEnv) → any is_deploy (update_metadata env []).1 ≡ false
unfolding update_metadata
update_metadata-any env = ground arith

-- When layering is prepared, and an import and a deployment succeed, a transaction deploys exactly when
-- it is not for metadata only, not a dry run and not a download, and something has changed or a refspec
-- is given.
pub finish-deploys :
    (env : FinishEnv) (kind : LayeringType) (layering_changed : Bool)
    → env.prep_layering ≡ ok (kind, layering_changed)
    → env.import ≡ ok tt
    → env.deploy ≡ ok tt
    → any is_deploy (finish env []).1 ≡ (
        not env.flags.download_metadata_only
        && (not env.flags.dry_run
            && (not env.flags.download_only
                && (differs env layering_changed || is_some env.refspec))))
unfolding finish after_layering
finish-deploys env kind layering_changed prepared imported deployed = ground (
  arith,
  prepared,
  update_metadata-any env,
  apply_changes-any env kind layering_changed (differs env layering_changed) imported deployed,
)
