-- ===== src/Daemon/AuthorizeLaws.antt =====
-- Who passes os_authorize_method, and what UpdateDeployment asks polkit for.
use rpm_ostree.Prelude.{
  ◌≡◌, refl, subst, ◌↔◌, ◌⊎◌, inl, inr, Bool, true, false, not, ◌&&◌, ◌||◌, Option, none, some,
  List, [], ◌∷◌, All, arith, is_some,
}
use rpm_ostree.Prelude.Text.{Text, text_eq, codes}
use rpm_ostree.Prelude.Result.{Result, ok, error}
use rpm_ostree.Daemon.Authorize.{
  Permission, repo_refresh, repo_modify, deploy, upgrade, rebase, bootconfig, cleanup, rollback,
  install_uninstall_packages, install_local_packages, override, finalize_deployment, Request,
  vardict_lookup_bool, base_action, changes_packages, changes_local, changes_overrides, or_override,
  update_actions, method_actions, Authority, check_actions, conclude, authorize_actions,
  authorize_method,
}

-- Polkit grants every one of the actions, and there is at least one; with `none`, no action is asked for.
abbrev pub Granted : (Permission → Result Bool) → Option (List Permission) → Type 0
Granted polkit none = Unit {0}
Granted polkit (some []) = ⊥
Granted polkit (some (p ∷ ps)) = All (λ q. polkit q ≡ ok true) (p ∷ ps)

check_actions-true :
    (polkit : Permission → Result Bool) (ps : List Permission)
    → (check_actions polkit ps true ≡ ok true) ↔ All (λ q. polkit q ≡ ok true) ps
unfolding check_actions
check_actions-true polkit [] = (λ _. tt, λ _. refl)
check_actions-true polkit (p ∷ ps) = ground (arith, check_actions-true polkit ps)

check_actions-cons :
    (polkit : Permission → Result Bool) (p : Permission) (ps : List Permission)
    → (check_actions polkit (p ∷ ps) false ≡ ok true) ↔ All (λ q. polkit q ≡ ok true) (p ∷ ps)
unfolding check_actions
check_actions-cons polkit p ps = ground (arith, check_actions-true polkit ps)

conclude-ok : (m : Text) (b : Result Bool) → (conclude m b ≡ ok tt) ↔ (b ≡ ok true)
unfolding conclude
conclude-ok m (error e) = ground arith
conclude-ok m (ok true) = ground arith
conclude-ok m (ok false) = ground arith

authorize_actions-Granted :
    (a : Authority) (m : Text) (actions : Option (List Permission))
    → (authorize_actions a m actions ≡ ok tt) ↔ Granted a.check_authorization actions
unfolding authorize_actions check_actions
authorize_actions-Granted a m none = (λ _. tt, λ _. refl)
authorize_actions-Granted a m (some []) = ground (arith, conclude-ok m (ok false))
authorize_actions-Granted a m (some (p ∷ ps)) =
    let concluded = conclude-ok m (check_actions a.check_authorization (p ∷ ps) false) in
    let granted = check_actions-cons a.check_authorization p ps in
    (λ h. granted.0 (concluded.0 h), λ g. concluded.1 (granted.1 g))

-- A caller passes exactly when the direct authorization lets it through, or, polkit being there, the
-- method needs no action, or polkit grants all of its actions, of which there is at least one.
pub authorize_method-passes :
    (a : Authority) (m : Text) (r : Request)
    → (authorize_method a m r ≡ ok tt) ↔ (
        (a.authorize_direct ≡ ok true)
        ⊎ ((a.authorize_direct ≡ ok false)
            × (a.get_polkit_authority ≡ ok tt)
            × Granted a.check_authorization (method_actions m r)))
unfolding authorize_method
authorize_method-passes a m r = ground (arith, authorize_actions-Granted a m (method_actions m r))

-- What an UpdateDeployment with these modifiers and options must be granted.
unfoldable pub is_needed : Request → Permission → Bool
is_needed r rebase = is_some r.set_refspec
is_needed r deploy = is_some r.set_revision && not (is_some r.set_refspec)
is_needed r upgrade =
    not (is_some r.set_refspec || is_some r.set_revision)
    && not (vardict_lookup_bool r.no_pull_base false)
is_needed r bootconfig = vardict_lookup_bool r.no_initramfs false
is_needed r install_uninstall_packages = changes_packages r
is_needed r install_local_packages = changes_local r
is_needed r override =
    changes_overrides r
    || (not (is_some r.set_refspec || is_some r.set_revision)
        && (vardict_lookup_bool r.no_pull_base false
            && (not (vardict_lookup_bool r.no_initramfs false)
                && (not (changes_packages r) && not (changes_local r)))))
is_needed r _ = false

update_actions-All :
    (P : Permission → Type 0) (r : Request) (p : Permission)
    → is_needed r p ≡ true
    → All P (update_actions r)
    → P p
unfolding is_needed update_actions base_action or_override
update_actions-All P r rebase e h = ground arith
update_actions-All P r deploy e h = ground arith
update_actions-All P r upgrade e h = ground arith
update_actions-All P r bootconfig e h = ground arith
update_actions-All P r install_uninstall_packages e h = ground arith
update_actions-All P r install_local_packages e h = ground arith
update_actions-All P r override e h = ground arith
update_actions-All P r repo_refresh e h = cc
update_actions-All P r repo_modify e h = cc
update_actions-All P r cleanup e h = cc
update_actions-All P r rollback e h = cc
update_actions-All P r finalize_deployment e h = cc

update_deployment-actions :
    (r : Request) → method_actions (codes "UpdateDeployment") r ≡ some (update_actions r)
unfolding method_actions text_eq
update_deployment-actions r = refl

or_override-Granted :
    (polkit : Permission → Result Bool) (r : Request)
    → Granted polkit (some (update_actions r))
    → All (λ q. polkit q ≡ ok true) (update_actions r)
or_override-Granted polkit r h = all_granted (update_actions r) h
  where
    all_granted :
        (ps : List Permission) → Granted polkit (some ps) → All (λ q. polkit q ≡ ok true) ps
    all_granted [] g = absurd g
    all_granted (p ∷ ps) g = g

-- An UpdateDeployment of a caller without direct authorization passes only if polkit grants each
-- action that its modifiers need: rebase, deploy or upgrade for the base, and one each for the
-- initramfs, packages, local packages and overrides; a request that needs none of them needs the
-- one for overrides.
pub update_deployment-needs :
    (a : Authority) (r : Request) (p : Permission)
    → is_needed r p ≡ true
    → a.authorize_direct ≡ ok false
    → authorize_method a (codes "UpdateDeployment") r ≡ ok tt
    → a.check_authorization p ≡ ok true
update_deployment-needs a r p needed direct passes =
    update_actions-All (λ q. a.check_authorization q ≡ ok true) r p needed
      (or_override-Granted a.check_authorization r
        (subst (Granted a.check_authorization) (update_deployment-actions r) granted))
  where
    granted : Granted a.check_authorization (method_actions (codes "UpdateDeployment") r)
    granted = elim ((authorize_method-passes a (codes "UpdateDeployment") r).0 passes) [
      | inl d ↦ absurd (ground (arith, d, direct))
      | inr g ↦ g.2
    ]
