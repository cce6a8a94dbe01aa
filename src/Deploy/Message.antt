-- ===== src/Deploy/Message.antt =====
-- The dictionary of modifiers that a client sends with UpdateDeployment, as the authorization
-- (src/daemon/rpmostreed-os.cxx) and the transaction (src/daemon/rpmostreed-transaction-types.cxx) read it.
use rpm_ostree.Prelude.{ℕ, ◌≡◌, refl, Bool, Option, none, some, List, length, if◌then◌else◌}
use rpm_ostree.Prelude.Text.{Text, text_eq, codes}
use rpm_ostree.Daemon.Authorize.{Request, Authority, authorize_method}
use rpm_ostree.Prelude.Int.{ℤ}
use rpm_ostree.Deploy.Request.{Modifiers}

-- A value of a GVariant dictionary, by its type: "s", "as", "ah", "h" or "b".
pub data Value : Type 0 where
  string : Text → Value
  strings : List Text → Value
  handles : List ℤ → Value
  handle : ℤ → Value
  boolean : Bool → Value

-- g_variant_dict_lookup with the key's value
abbrev pub Dict : Type 0
Dict = Text → Option Value

abbrev as_string : Option Value → Option Text
as_string (some (string s)) = some s
as_string _ = none

abbrev as_strings : Option Value → Option (List Text)
as_strings (some (strings s)) = some s
as_strings _ = none

abbrev pub as_handles : Option Value → Option (List ℤ)
as_handles (some (handles hs)) = some hs
as_handles _ = none

abbrev as_handle : Option Value → Option ℤ
as_handle (some (handle h)) = some h
as_handle _ = none

abbrev as_boolean : Option Value → Option Bool
as_boolean (some (boolean b)) = some b
as_boolean _ = none

abbrev n_handles : Option (List ℤ) → Option ℕ
n_handles none = none
n_handles (some hs) = some (length hs)

-- What os_authorize_method reads of the modifiers and the options.
unfoldable pub authorize_view : Dict → Dict → Request
authorize_view modifiers options = record {
  set_refspec = as_string (modifiers (codes "set-refspec"));
  set_revision = as_string (modifiers (codes "set-revision"));
  install_packages = as_strings (modifiers (codes "install-packages"));
  uninstall_packages = as_strings (modifiers (codes "uninstall-packages"));
  enable_modules = as_strings (modifiers (codes "enable-modules"));
  disable_modules = as_strings (modifiers (codes "disable-modules"));
  install_modules = as_strings (modifiers (codes "install-modules"));
  uninstall_modules = as_strings (modifiers (codes "uninstall-modules"));
  override_replace_packages = as_strings (modifiers (codes "override-replace-packages"));
  override_remove_packages = as_strings (modifiers (codes "override-remove-packages"));
  override_reset_packages = as_strings (modifiers (codes "override-reset-packages"));
  install_local_packages = n_handles (as_handles (modifiers (codes "install-local-packages")));
  install_local_fileoverride_packages =
      n_handles (as_handles (modifiers (codes "install-local-fileoverride-packages")));
  override_replace_local_packages =
      n_handles (as_handles (modifiers (codes "override-replace-local-packages")));
  no_pull_base = as_boolean (options (codes "no-pull-base"));
  no_overrides = as_boolean (options (codes "no-overrides"));
  no_layering = as_boolean (options (codes "no-layering"));
  no_initramfs = as_boolean (options (codes "no-initramfs"));
}

-- What deploy_transaction_execute reads of the modifiers.
unfoldable pub execute_view : Dict → Modifiers
execute_view modifiers = record {
  set_refspec = as_string (modifiers (codes "set-refspec"));
  set_revision = as_string (modifiers (codes "set-revision"));
  install_packages = as_strings (modifiers (codes "install-packages"));
  install_fileoverride_packages = as_strings (modifiers (codes "install-fileoverride-packages"));
  uninstall_packages = as_strings (modifiers (codes "uninstall-packages"));
  enable_modules = as_strings (modifiers (codes "enable-modules"));
  disable_modules = as_strings (modifiers (codes "disable-modules"));
  install_modules = as_strings (modifiers (codes "install-modules"));
  uninstall_modules = as_strings (modifiers (codes "uninstall-modules"));
  override_replace_packages = as_strings (modifiers (codes "override-replace-packages"));
  override_remove_packages = as_strings (modifiers (codes "override-remove-packages"));
  override_reset_packages = as_strings (modifiers (codes "override-reset-packages"));
  install_local_packages = as_handles (modifiers (codes "install-local-packages"));
  install_fileoverride_local_packages =
      as_handles (modifiers (codes "install-fileoverride-local-packages"));
  override_replace_local_packages =
      as_handles (modifiers (codes "override-replace-local-packages"));
  local_repo_remote = as_handle (modifiers (codes "ex-local-repo-remote"));
  treefile = as_string (modifiers (codes "treefile"));
}

-- The dictionary with another value under a key.
abbrev pub set_entry : Text → Option Value → Dict → Dict
set_entry key value dict k = if text_eq k key then value else dict k

-- With other local packages that override files.
abbrev pub with_fileoverrides : Option Value → Dict → Dict
with_fileoverrides value dict = set_entry (codes "install-fileoverride-local-packages") value dict

-- Local packages that override files change nothing in what the caller must be authorized for, though the
-- transaction reads them: the authorization looks for them under another key.
pub authorize_method-overlooks_fileoverride :
    (a : Authority) (dict options : Dict) (value : Option Value)
    → (authorize_method a
          (codes "UpdateDeployment")
          (authorize_view (with_fileoverrides value dict) options)
        ≡ authorize_method a (codes "UpdateDeployment") (authorize_view dict options))
      × ((execute_view (with_fileoverrides value dict)).install_fileoverride_local_packages
          ≡ as_handles value)
unfolding authorize_view execute_view text_eq
authorize_method-overlooks_fileoverride a dict options value = (refl, refl)
