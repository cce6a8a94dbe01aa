-- ===== src/Daemon/Authorize.antt =====
-- os_authorize_method of src/daemon/rpmostreed-os.cxx: which polkit actions a D-Bus method of an
-- operating system needs, and whether its caller is let through. What polkit and the direct
-- authorization answer are arguments.
use rpm_ostree.Prelude.{
  ℕ, Bool, true, false, not, ◌||◌, Option, none, some, List, [], ◌∷◌, ◌++◌, any, ltb, is_some,
  if◌then◌else◌,
}
use rpm_ostree.Prelude.Text.{Text, text_eq, codes}
use rpm_ostree.Prelude.Result.{Result, ok, error}

-- The actions "org.projectatomic.rpmostree1.*".
pub data Permission : Type 0 where
  repo_refresh repo_modify deploy upgrade rebase bootconfig cleanup rollback : Permission
  install_uninstall_packages install_local_packages override finalize_deployment : Permission

-- The modifiers and options of UpdateDeployment that are looked at. A list of file descriptors is
-- given by its length, and a string or an array of strings by its value, if it is there.
pub record Request : Type 0 where
  pub set_refspec : Option Text
  pub set_revision : Option Text
  pub install_packages : Option (List Text)
  pub uninstall_packages : Option (List Text)
  pub enable_modules : Option (List Text)
  pub disable_modules : Option (List Text)
  pub install_modules : Option (List Text)
  pub uninstall_modules : Option (List Text)
  pub override_replace_packages : Option (List Text)
  pub override_remove_packages : Option (List Text)
  pub override_reset_packages : Option (List Text)
  pub install_local_packages : Option ℕ
  pub install_local_fileoverride_packages : Option ℕ
  pub override_replace_local_packages : Option ℕ
  pub no_pull_base : Option Bool
  pub no_overrides : Option Bool
  pub no_layering : Option Bool
  pub no_initramfs : Option Bool

-- vardict_lookup_bool
unfoldable pub vardict_lookup_bool : Option Bool → Bool → Bool
vardict_lookup_bool none dfault = dfault
vardict_lookup_bool (some b) dfault = b

-- The list is there and not empty.
unfoldable pub has_children : Option ℕ → Bool
has_children none = false
has_children (some n) = ltb 0 n

abbrev pub add_if : Bool → Permission → List Permission
add_if true p = p ∷ []
add_if false p = []

-- The action for the base: a new refspec, a revision, or an upgrade.
unfoldable pub base_action : Request → List Permission
base_action r =
    if is_some r.set_refspec
    then rebase ∷ []
    else if is_some r.set_revision
    then deploy ∷ []
    else if not (vardict_lookup_bool r.no_pull_base false)
    then upgrade ∷ []
    else []

unfoldable pub changes_packages : Request → Bool
changes_packages r =
    is_some r.install_packages
    || is_some r.uninstall_packages
    || is_some r.enable_modules
    || is_some r.disable_modules
    || is_some r.install_modules
    || is_some r.uninstall_modules
    || vardict_lookup_bool r.no_layering false

unfoldable pub changes_local : Request → Bool
changes_local r =
    has_children r.install_local_packages || has_children r.install_local_fileoverride_packages

unfoldable pub changes_overrides : Request → Bool
changes_overrides r =
    is_some r.override_replace_packages
    || is_some r.override_remove_packages
    || is_some r.override_reset_packages
    || has_children r.override_replace_local_packages
    || vardict_lookup_bool r.no_overrides false

-- What is not recognised counts as an override.
unfoldable pub or_override : List Permission → List Permission
or_override [] = override ∷ []
or_override (p ∷ ps) = p ∷ ps

-- The branch for UpdateDeployment.
unfoldable pub update_actions : Request → List Permission
update_actions r = or_override (
    add_if (vardict_lookup_bool r.no_initramfs false) bootconfig
    ++ (base_action r
        ++ (add_if (changes_packages r) install_uninstall_packages
            ++ (add_if (changes_local r) install_local_packages
                ++ add_if (changes_overrides r) override))))

abbrev pub is_one_of : Text → List Text → Bool
is_one_of m names = any (λ n. text_eq m n) names

-- The actions of a method; `none` where it needs no authentication.
unfoldable pub method_actions : Text → Request → Option (List Permission)
method_actions m r =
    if is_one_of m (
      codes "GetDeploymentsRpmDiff"
      ∷ codes "GetCachedDeployRpmDiff"
      ∷ codes "DownloadDeployRpmDiff"
      ∷ codes "GetCachedUpdateRpmDiff"
      ∷ codes "DownloadUpdateRpmDiff"
      ∷ codes "GetCachedRebaseRpmDiff"
      ∷ codes "DownloadRebaseRpmDiff"
      ∷ codes "RefreshMd"
      ∷ [])
    then some (repo_refresh ∷ [])
    else if text_eq m (codes "ModifyYumRepo")
    then some (repo_modify ∷ [])
    else if text_eq m (codes "Deploy")
    then some (deploy ∷ [])
    else if is_one_of m (codes "Upgrade" ∷ codes "AutomaticUpdateTrigger" ∷ [])
    then some (upgrade ∷ [])
    else if text_eq m (codes "Rebase")
    then some (rebase ∷ [])
    else if is_one_of m (
        codes "GetDeploymentBootConfig"
        ∷ codes "ListRepos"
        ∷ codes "WhatProvides"
        ∷ codes "GetPackages"
        ∷ codes "Search"
        ∷ [])
    then none
    else if is_one_of m (codes "SetInitramfsState" ∷ codes "KernelArgs" ∷ codes "InitramfsEtc" ∷ [])
    then some (bootconfig ∷ [])
    else if text_eq m (codes "Cleanup")
    then some (cleanup ∷ [])
    else if is_one_of m (codes "Rollback" ∷ codes "ClearRollbackTarget" ∷ [])
    then some (rollback ∷ [])
    else if text_eq m (codes "PkgChange")
    then some (install_uninstall_packages ∷ [])
    else if text_eq m (codes "UpdateDeployment")
    then some (update_actions r)
    else if text_eq m (codes "FinalizeDeployment")
    then some (finalize_deployment ∷ [])
    else some []

-- What the caller's credentials, the connection to polkit and polkit itself answer.
pub record Authority : Type 0 where
  pub authorize_direct : Result Bool
  pub get_polkit_authority : Result (Unit {0})
  pub check_authorization : Permission → Result Bool

-- The loop over the actions, with what `authorized` holds: the answer, or the error of polkit.
unfoldable pub check_actions : (Permission → Result Bool) → List Permission → Bool → Result Bool
check_actions polkit [] authorized = ok authorized
check_actions polkit (p ∷ ps) authorized = elim (polkit p) [
  | error e ↦ error (codes "Authorization error: " ++ e)
  | ok false ↦ ok false
  | ok true ↦ check_actions polkit ps true
]

unfoldable pub conclude : Text → Result Bool → Result (Unit {0})
conclude m (error e) = error e
conclude m (ok true) = ok tt
conclude m (ok false) =
    error (codes "rpmostreed OS operation " ++ m ++ codes " not allowed for user")

unfoldable pub authorize_actions : Authority → Text → Option (List Permission) → Result (Unit {0})
authorize_actions a m none = ok tt
authorize_actions a m (some actions) =
    conclude m (check_actions a.check_authorization actions false)

-- os_authorize_method: TRUE, or FALSE with the error that is returned to the caller.
unfoldable pub authorize_method : Authority → Text → Request → Result (Unit {0})
authorize_method a m r = elim a.authorize_direct [
  | error e ↦ error (codes "Failed direct authorization: " ++ e)
  | ok true ↦ ok tt
  | ok false ↦ elim a.get_polkit_authority [
    | error e ↦ error (codes "Failed to load polkit: " ++ e)
    | ok u ↦ authorize_actions a m (method_actions m r)
  ]
]
