-- ===== src/Deploy/Title.antt =====
-- The title and the flags of a transaction: deploy_transaction_execute of
-- src/daemon/rpmostreed-transaction-types.cxx, before any work is done.
use rpm_ostree.Prelude.{
  ℕ, Bool, false, not, ◌&&◌, ◌||◌, Option, none, some, List, [], ◌∷◌, ◌++◌, length, if◌then◌else◌,
  is_some,
}
use rpm_ostree.Prelude.Text.{strstr, Text, codes}
use rpm_ostree.Txn.Effects.{vardict_lookup_bool}
use rpm_ostree.Prelude.Int.{ℤ}
use rpm_ostree.Deploy.Request.{DeployFlags, DeployOptions, Modifiers, given, canonical}
use rpm_ostree.Deploy.Fds.{LocalFds, is_minus_one}

-- The file descriptors of g_unix_fd_list_new_from_array (array, -1).
unfoldable pub until_end : List ℤ → List ℤ
until_end [] = []
until_end (fd ∷ fds) = let rest = until_end fds in if is_minus_one fd then [] else fd ∷ rest

-- The kind of change that is recognized when the base is not pulled.
pub data Change : Type 0 where
  override_change : Change
  install_change : Change
  uninstall_change : Change
  base_change : Change

abbrev pub is_override : DeployOptions → Modifiers → LocalFds → Bool
is_override options m local =
    given m.override_reset_packages
    || given m.override_remove_packages
    || given m.override_replace_packages
    || is_some local.override_replace_local
    || vardict_lookup_bool options.no_overrides false

abbrev pub is_install : Modifiers → LocalFds → Bool
is_install m local =
    given m.install_packages
    || is_some local.install_local
    || is_some local.install_fileoverride_local
    || given m.install_modules

-- is_override, is_install and is_uninstall
unfoldable pub change_of : DeployFlags → DeployOptions → Modifiers → LocalFds → Change
change_of flags options m local =
    if not flags.no_pull_base
    then base_change
    else if is_override options m local
    then override_change
    else if is_install m local
    then install_change
    else uninstall_change

abbrev pub base_verb : Modifiers → Text
base_verb m =
    if is_some m.set_refspec
    then codes "rebase"
    else if is_some m.set_revision
    then codes "deploy"
    else codes "upgrade"

abbrev pub verb : Change → Modifiers → Text
verb install_change m = codes "install"
verb uninstall_change m = codes "uninstall"
verb override_change m = codes "override"
verb base_change m = base_verb m

abbrev pub fetch_suffix : DeployFlags → DeployOptions → Text
fetch_suffix flags options =
    if vardict_lookup_bool options.cache_only false
    then codes " (cache only)"
    else if flags.download_metadata_only
    then codes " (check only)"
    else if flags.download_only
    then codes " (download only)"
    else []

module _ (print_u : ℕ → Text) where
  -- g_string_append_printf (txn_title, "; ...: %u", n)
  abbrev pub count_of : Text → ℕ → Text
  count_of label n = codes "; " ++ label ++ codes ": " ++ print_u n

  abbrev pub names_of : Text → Option (List Text) → Text
  names_of label none = []
  names_of label (some names) = count_of label (length names)

  abbrev pub fds_of : Text → Option (List ℤ) → Text
  fds_of label none = []
  fds_of label (some fds) = count_of label (length (until_end fds))

  unfoldable pub txn_title : DeployFlags → DeployOptions → Modifiers → LocalFds → Text
  txn_title flags options m local =
      verb (change_of flags options m local) m
      ++ fetch_suffix flags options
      ++ names_of (codes "uninstall") (canonical m.uninstall_packages)
      ++ names_of (codes "module disable") (canonical m.disable_modules)
      ++ names_of (codes "module uninstall") (canonical m.uninstall_modules)
      ++ names_of (codes "install") (canonical m.install_packages)
      ++ fds_of (codes "localinstall") local.install_local
      ++ fds_of (codes "fileoverride localinstall") local.install_fileoverride_local
      ++ names_of (codes "module enable") (canonical m.enable_modules)
      ++ names_of (codes "module install") (canonical m.install_modules)

  -- The title: of a command line, that is verbatim unless it is the automatic one.
  unfoldable pub title : DeployFlags → DeployOptions → Modifiers → LocalFds → Option Text → Text
  title flags options m local none = txn_title flags options m local
  title flags options m local (some command_line) =
      if strstr command_line (codes "--trigger-automatic-update-policy")
      then (if flags.download_metadata_only
          then codes "automatic (check)"
          else codes "automatic (stage)")
      else command_line

-- RpmOstreeSysrootUpgraderFlags
pub record UpgraderFlags : Type 0 where
  pub allow_older : Bool
  pub upgrader_dry_run : Bool
  pub upgrader_lock_finalization : Bool
  pub synthetic_pull : Bool
  pub pkgcache_only : Bool
  pub ignore_unconfigured : Bool

unfoldable pub upgrader_flags : DeployFlags → DeployOptions → Modifiers → UpgraderFlags
upgrader_flags flags options m = record {
  allow_older = flags.allow_downgrade;
  upgrader_dry_run = flags.dry_run;
  upgrader_lock_finalization = vardict_lookup_bool options.lock_finalization false;
  synthetic_pull = vardict_lookup_bool options.cache_only false;
  pkgcache_only = vardict_lookup_bool options.cache_only false;
  ignore_unconfigured = is_some m.set_refspec;
}

-- The condition of the assertion on download_metadata_only.
unfoldable pub metadata_only_compatible : DeployFlags → DeployOptions → Bool
metadata_only_compatible flags options = not (
    flags.download_metadata_only
    && (flags.no_pull_base || vardict_lookup_bool options.cache_only false || flags.download_only))

-- The conditions of the assertions on no_overrides; the list of descriptors is not NULL if the request
-- names local packages.
unfoldable pub no_overrides_compatible : DeployOptions → Modifiers → LocalFds → Bool
no_overrides_compatible options m local = not (
    vardict_lookup_bool options.no_overrides false
    && (given m.override_replace_packages
        || is_some local.override_replace_local
        || given m.override_remove_packages
        || given m.override_reset_packages))
