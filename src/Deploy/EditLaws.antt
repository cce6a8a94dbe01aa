-- ===== src/Deploy/EditLaws.antt =====
-- That computing the origin only prepares: it keeps every property of the trace that the preparing steps
-- allow.
use rpm_ostree.Prelude.{◌≡◌, refl, Bool, true, false, Option, none, some, List, [], ◌∷◌}
use rpm_ostree.Prelude.Text.{Text, codes}
use rpm_ostree.Prelude.Result.{Result, ok, error, perform}
use rpm_ostree.Prelude.Keeps.{
  Keeps, Allows, pure-Keeps, throw-Keeps, >>=-Keeps, call-Keeps, perform-Keeps, attempt-Keeps,
  if-Keeps,
}
use rpm_ostree.Prelude.Int.{ℤ}
use rpm_ostree.Deploy.Request.{DeployOptions, Modifiers}
use rpm_ostree.Deploy.Fds.{LocalFds}
use rpm_ostree.Deploy.Finish.{
  DeployStep, output_message, set_title, record_driver_info, migrate_pkgcache, pull_local_commit,
  import_many_local_rpms, pull_base, assertion_failed,
}
use rpm_ostree.Deploy.Refspec.{OriginEdit}
use rpm_ostree.Deploy.Title.{until_end}
use rpm_ostree.Deploy.Overrides.{Sack}
use rpm_ostree.Deploy.Env.{DeployEnv, Work, g_assert, traced}
use rpm_ostree.Deploy.Target.{local_rebase, edited, change_refspec, change_revision}
use rpm_ostree.Deploy.Edit.{
  remove_layered, skips_base_check, load_base, refuse_installed, install_layered, import_local,
  add_if_any, install_local,
}

-- A step before the origin is computed.
abbrev pub prepares : DeployStep → Bool
prepares (output_message text) = true
prepares (set_title text) = true
prepares (record_driver_info driver) = true
prepares migrate_pkgcache = true
prepares (pull_local_commit rev) = true
prepares (import_many_local_rpms fds) = true
prepares (pull_base commit_only) = true
prepares assertion_failed = true
prepares _ = false

module _ (P : List DeployStep → Type 0)
    (allows : (s : DeployStep) → prepares s ≡ true → Allows P s) where
  pub g_assert-Keeps : (b : Bool) → Keeps P (g_assert b)
  g_assert-Keeps b = if-Keeps P b _ _ (pure-Keeps P tt) (
      >>=-Keeps P (perform assertion_failed) _
        (perform-Keeps P assertion_failed (allows assertion_failed refl))
        (λ _. throw-Keeps P (codes "assertion failed")))

  pub traced-Keeps :
      {A : Type 0} (s : DeployStep) (r : Result A) → prepares s ≡ true → Keeps P (traced s r)
  traced-Keeps s (ok a) e =
      >>=-Keeps P (perform s) _ (perform-Keeps P s (allows s e)) (λ _. pure-Keeps P a)
  traced-Keeps s (error m) e = throw-Keeps P m

  module _ {O : Type 0} (env : DeployEnv O) where
    pub local_rebase-Keeps :
        (local : LocalFds) (refspec : Option Text) → Keeps P (local_rebase env local refspec)
    unfolding local_rebase
    local_rebase-Keeps local none = >>=-Keeps P _ _ (g_assert-Keeps _) (λ _. pure-Keeps P none)
    local_rebase-Keeps local (some refspec) = if-Keeps P _ _ _ (pure-Keeps P (some refspec)) (
        >>=-Keeps P _ _
          (>>=-Keeps P _ _ (call-Keeps P _) (λ _. call-Keeps P (env.resolve_local_rev refspec)))
          (λ rev.
            >>=-Keeps P _ _
              (attempt-Keeps P (pull_local_commit rev) _ (allows (pull_local_commit rev) refl))
              (λ _. pure-Keeps P _)))

    edited-Keeps :
        {A : Type 0} (origin : O) (r : Result A × List OriginEdit) → Keeps P (edited env origin r)
    edited-Keeps origin (ok a, edits) = pure-Keeps P _
    edited-Keeps origin (error e, edits) = throw-Keeps P e

    pub change_refspec-Keeps :
        (options : DeployOptions) (refspec : Option Text) (origin : O)
        → Keeps P (change_refspec env options refspec origin)
    unfolding change_refspec
    change_refspec-Keeps options none origin = pure-Keeps P _
    change_refspec-Keeps options (some refspec) origin =
        >>=-Keeps P _ _ (edited-Keeps origin _) (λ r. pure-Keeps P _)

    pub change_revision-Keeps :
        (options : DeployOptions) (revision : Option Text) (origin : O)
        → Keeps P (change_revision env options revision origin)
    unfolding change_revision
    change_revision-Keeps options none origin = pure-Keeps P _
    change_revision-Keeps options (some revision) origin =
        >>=-Keeps P _ _ (edited-Keeps origin _) (λ r. pure-Keeps P _)

    pub remove_layered-Keeps :
        (options : DeployOptions) (m : Modifiers) (w : Work O)
        → Keeps P (remove_layered env options m w)
    unfolding remove_layered
    remove_layered-Keeps options m w =
        if-Keeps P _ _ _ (pure-Keeps P _) (>>=-Keeps P _ _ (call-Keeps P _) (λ r. pure-Keeps P _))

    pub skips_base_check-Keeps : (origin : O) → Keeps P (skips_base_check env origin)
    unfolding skips_base_check
    skips_base_check-Keeps origin = >>=-Keeps P _ _ (call-Keeps P _) (λ h. pure-Keeps P _)

    loaded-Keeps :
        (base : Text) (sack : Option Sack) (w : Work O)
        → Keeps P (load_base env base (record w { base_rsack = sack }))
    unfolding load_base
    loaded-Keeps base none w = >>=-Keeps P _ _ (call-Keeps P _) (λ h. pure-Keeps P _)
    loaded-Keeps base (some sack) w = pure-Keeps P _

    pub load_base-Keeps : (base : Text) (w : Work O) → Keeps P (load_base env base w)
    load_base-Keeps base w = loaded-Keeps base w.base_rsack w

    refuse_installed-Keeps :
        (options : DeployOptions) (skip : Bool) (pkgs : List Text) (w : Work O)
        → Keeps P (refuse_installed env options skip pkgs w)
    refuse_installed-Keeps options skip pkgs w = if-Keeps P skip _ _ (pure-Keeps P w) (
        >>=-Keeps P _ _ (load_base-Keeps env.base w)
          (λ r. >>=-Keeps P _ _ (call-Keeps P _) (λ _. pure-Keeps P _)))

    pub install_layered-Keeps :
        (options : DeployOptions) (skip : Bool) (pkgs : Option (List Text)) (w : Work O)
        → Keeps P (install_layered env options skip pkgs w)
    unfolding install_layered
    install_layered-Keeps options skip none w = pure-Keeps P w
    install_layered-Keeps options skip (some pkgs) w =
        >>=-Keeps P _ _ (refuse_installed-Keeps options skip pkgs w)
          (λ v. >>=-Keeps P _ _ (call-Keeps P _) (λ r. pure-Keeps P _))

    pub import_local-Keeps : (fds : List ℤ) → Keeps P (import_local env fds)
    import_local-Keeps fds = traced-Keeps (import_many_local_rpms (until_end fds)) _ refl

    add_if_any-Keeps :
        (add : List Text → O → Bool → Result (O × Bool)) (pkgs : List Text) (w : Work O)
        → Keeps P (add_if_any env add pkgs w)
    add_if_any-Keeps add [] w = pure-Keeps P w
    add_if_any-Keeps add (pkg ∷ pkgs) w = >>=-Keeps P _ _ (call-Keeps P _) (λ r. pure-Keeps P _)

    pub install_local-Keeps :
        (add : List Text → O → Bool → Result (O × Bool)) (fds : Option (List ℤ)) (w : Work O)
        → Keeps P (install_local env add fds w)
    unfolding install_local
    install_local-Keeps add none w = pure-Keeps P w
    install_local-Keeps add (some fds) w =
        >>=-Keeps P _ _ (import_local-Keeps fds) (λ pkgs. add_if_any-Keeps add pkgs w)
