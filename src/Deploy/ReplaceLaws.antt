-- ===== src/Deploy/ReplaceLaws.antt =====
-- That changing the overrides and pulling the base only prepares.
use rpm_ostree.Prelude.{◌≡◌, refl, true, Option, none, some, List, [], ◌∷◌}
use rpm_ostree.Prelude.Text.{Text, codes}
use rpm_ostree.Prelude.Result.{throw, call, perform}
use rpm_ostree.Prelude.Keeps.{
  Keeps, Allows, pure-Keeps, throw-Keeps, >>=-Keeps, call-Keeps, perform-Keeps, if-Keeps,
}
use rpm_ostree.Prelude.Int.{ℤ}
use rpm_ostree.Deploy.Request.{DeployFlags, DeployOptions, Modifiers}
use rpm_ostree.Deploy.Fds.{LocalFds}
use rpm_ostree.Deploy.Finish.{DeployStep, pull_base, assertion_failed}
use rpm_ostree.Deploy.Overrides.{
  canonical_names, add_all, add_recorded, no_names, no_overrides_for, try_local, Names,
  reset_override, reset_overrides, try_mapped,
}
use rpm_ostree.Deploy.Env.{DeployEnv, Work}
use rpm_ostree.Deploy.Replace.{
  known_names, add_replaced, replace_local, change_overrides, merge, pull, remove_overridden,
}
use rpm_ostree.Deploy.EditLaws.{prepares, traced-Keeps, load_base-Keeps, import_local-Keeps}

module _ (P : List DeployStep → Type 0)
    (allows : (s : DeployStep) → prepares s ≡ true → Allows P s) where
  module _ {O : Type 0} (env : DeployEnv O) where
    try_mapped-Keeps :
        (given : Text) (p : Option (Text × Text)) (origin : O)
        → Keeps P (try_mapped env.api given p origin)
    try_mapped-Keeps given none origin =
        >>=-Keeps P (perform assertion_failed) _
          (perform-Keeps P assertion_failed (allows assertion_failed refl))
          (λ _. throw-Keeps P (codes "code should not be reached"))
    try_mapped-Keeps given (some (name, nevra)) origin =
        let removed = env.api.remove_package_override_remove origin name in
        let replaced = env.api.remove_package_override_replace_local removed.0 nevra in
        if-Keeps P removed.1 _ (try_local env.api given nevra removed.0) (pure-Keeps P removed.0) (
          if-Keeps P replaced.1 _ (throw (no_overrides_for given)) (pure-Keeps P replaced.0)
            (throw-Keeps P (no_overrides_for given)))

    reset_overrides-Keeps :
        (names : Names) (given : List Text) (origin : O)
        → Keeps P (reset_overrides env.api names given origin)
    unfolding reset_overrides reset_override
    reset_overrides-Keeps names [] origin = pure-Keeps P origin
    reset_overrides-Keeps names (g ∷ given) origin =
        >>=-Keeps P _ _ (if-Keeps P _ _ _ (pure-Keeps P _) (try_mapped-Keeps g _ _))
          (reset_overrides-Keeps names given)

    add_replaced-Keeps : (pkgs : List Text) (origin : O) → Keeps P (add_replaced env pkgs origin)
    add_replaced-Keeps [] origin = pure-Keeps P origin
    add_replaced-Keeps (pkg ∷ pkgs) origin = call-Keeps P _

    replace_local-Keeps :
        (names : Names) (fds : Option (List ℤ)) (origin : O)
        → Keeps P (replace_local env names fds origin)
    unfolding replace_local
    replace_local-Keeps names none origin = pure-Keeps P origin
    replace_local-Keeps names (some fds) origin =
        >>=-Keeps P _ _ (import_local-Keeps P allows env fds)
          (λ pkgs. >>=-Keeps P _ _ (call-Keeps P _) (add_replaced-Keeps pkgs))

    known_names-Keeps : (origin : O) → Keeps P (known_names env origin)
    unfolding known_names
    known_names-Keeps origin =
        >>=-Keeps P (call env.layered_info) _ (call-Keeps P env.layered_info) (λ info.
          call-Keeps P (
            add_recorded env.nevra_api (add_all (add_all no_names info.0) info.1)
              (env.api.get_packages_override_replace_local origin)))

    pub change_overrides-Keeps :
        (options : DeployOptions) (m : Modifiers) (local : LocalFds) (w : Work O)
        → Keeps P (change_overrides env options m local w)
    unfolding change_overrides
    change_overrides-Keeps options m local w = if-Keeps P _ _ _ (pure-Keeps P _) (
        if-Keeps P _ _ _
          (>>=-Keeps P _ _ (known_names-Keeps w.origin) (λ names.
            >>=-Keeps P _ _
              (>>=-Keeps P _ _ (reset_overrides-Keeps names _ w.origin)
                (replace_local-Keeps names local.override_replace_local))
              (λ origin. pure-Keeps P _)))
          (pure-Keeps P w))

    pub merge-Keeps : (treefile : Option Text) (w : Work O) → Keeps P (merge env treefile w)
    unfolding merge
    merge-Keeps none w = pure-Keeps P w
    merge-Keeps (some treefile) w = >>=-Keeps P _ _ (call-Keeps P _) (λ r. pure-Keeps P _)

    pub pull-Keeps : (flags : DeployFlags) (w : Work O) → Keeps P (pull env flags w)
    unfolding pull
    pull-Keeps flags w = if-Keeps P _ _ _ (pure-Keeps P w) (
        >>=-Keeps P _ _
          (>>=-Keeps P _ _ (traced-Keeps P allows (pull_base flags.download_metadata_only) _ refl)
            (λ c. if-Keeps P c _ _ (pure-Keeps P true) (call-Keeps P env.has_live_apply_state)))
          (λ c. pure-Keeps P _))

    pub remove_overridden-Keeps :
        (flags : DeployFlags) (pkgs : Option (List Text)) (w : Work O)
        → Keeps P (remove_overridden env flags pkgs w)
    unfolding remove_overridden
    remove_overridden-Keeps flags none w = pure-Keeps P w
    remove_overridden-Keeps flags (some pkgs) w =
        >>=-Keeps P _ _ (load_base-Keeps P allows env _ w) (λ r.
          >>=-Keeps P (call (canonical_names r.1 pkgs)) _ (call-Keeps P (canonical_names r.1 pkgs))
            (λ names.
              >>=-Keeps P (call (env.api.add_packages_override_remove r.0.origin names)) _
                (call-Keeps P (env.api.add_packages_override_remove r.0.origin names))
                (λ origin. pure-Keeps P (record r.0 { origin = origin; changed = true }))))
