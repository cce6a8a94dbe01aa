-- ===== src/Deploy/AutoUpdateLaws.antt =====
-- What an automatic update that only checks can run into.
use rpm_ostree.Prelude.{◌++◌, ap, ◌∙◌, ℕ, ◌≡◌, refl, true, false, none, some, List, [], ◌∷◌, arith}
use rpm_ostree.Prelude.Text.{Text}
use rpm_ostree.Prelude.Result.{ok}
use rpm_ostree.Txn.Effects.{vardict_lookup_bool}
use rpm_ostree.Deploy.Request.{
  Modifiers, DeployFlags, DeployOptions, canonical, deploy_flags_from_options, execute_flags,
}
use rpm_ostree.Deploy.Fds.{LocalFds, no_local, expected_fdn, split_fds}
use rpm_ostree.Deploy.Check.{
  check_options, refspec_or_revision, with_refspec, with_revision, changes_overrides,
}
use rpm_ostree.Deploy.Finish.{DeployStep, set_title, assertion_failed}
use rpm_ostree.Deploy.Title.{title, metadata_only_compatible}
use rpm_ostree.Deploy.Env.{DeployEnv}
use rpm_ostree.Deploy.Execute.{execute, execute_from, checked, register_and_transact, transact}
use rpm_ostree.Deploy.AutoUpdate.{policy_check, start_deploy, trigger_policy, empty_modifiers}

-- Options that pass the first checks of a transaction without modifiers and register no driver.
pub record Passes (options : DeployOptions) : Type 0 where
  pub purge : vardict_lookup_bool options.skip_purge false ≡ false
  pub download : vardict_lookup_bool options.opt_download_only false ≡ false
  pub live : vardict_lookup_bool options.apply_live false ≡ false
  pub driver : options.register_driver ≡ none

-- The flags of a check.
abbrev check_flags : DeployOptions → DeployFlags
check_flags options = deploy_flags_from_options options (record {
  allow_downgrade = false;
  no_pull_base = false;
  dry_run = false;
  download_only = false;
  download_metadata_only = true;
})

module _ {O : Type 0} (env : DeployEnv O) (print_u : ℕ → Text) (options : DeployOptions) where
  register-asserts :
      (m : Modifiers) (flags : DeployFlags) (local : LocalFds) (log : List DeployStep)
      → metadata_only_compatible flags options ≡ false
      → (register_and_transact env options m local flags none log).1 ≡ log ++ assertion_failed ∷ []
  unfolding register_and_transact transact
  register-asserts m flags local log f = rw f

  checked-asserts :
      (m : Modifiers) (flags : DeployFlags) (local : LocalFds)
      → check_options options m local ≡ ok tt
      → options.register_driver ≡ none
      → metadata_only_compatible flags options ≡ false
      → (checked env print_u options m flags (some local) []).1
        ≡ set_title (title print_u flags options m local options.initiating_command_line)
          ∷ assertion_failed
          ∷ []
  unfolding checked
  checked-asserts m flags local e d f =
      let titled =
        set_title (title print_u flags options m local options.initiating_command_line) ∷ [] in
      rw e (
        ap (λ driver. (register_and_transact env options m local flags driver titled).1) d
        ∙ register-asserts m flags local titled f)

  checked_ok : Passes options → check_options options empty_modifiers no_local ≡ ok tt
  unfolding check_options refspec_or_revision with_refspec with_revision changes_overrides canonical
  checked_ok p = ground (arith, p)

  check_flags-incompatible :
      vardict_lookup_bool options.cache_only false ≡ true
      → metadata_only_compatible (execute_flags options false (check_flags options)) options ≡ false
  unfolding metadata_only_compatible execute_flags deploy_flags_from_options
  check_flags-incompatible c = ground (arith, c)

  execute-checked :
      (flags : DeployFlags)
      → execute env print_u options empty_modifiers flags none
        ≡ checked env print_u options empty_modifiers
            (execute_flags options false flags)
            (some no_local)
  unfolding execute execute_from expected_fdn split_fds refspec_or_revision with_refspec
  execute-checked flags = refl

  -- An automatic update in the mode that only checks starts a transaction with the client's own options.
  -- With cache-only among them, options that pass the first checks and register no driver make the
  -- transaction set its title, fail an assertion and do nothing else.
  pub trigger_policy-asserts :
      vardict_lookup_bool options.cache_only false ≡ true
      → Passes options
      → (flags : DeployFlags) × (trigger_policy options policy_check ≡ start_deploy flags options)
        × (text : Text) × ((execute env print_u options empty_modifiers flags none []).1
            ≡ set_title text ∷ assertion_failed ∷ [])
  unfolding trigger_policy
  trigger_policy-asserts c p = (
    check_flags options,
    refl,
    title print_u (execute_flags options false (check_flags options)) options empty_modifiers
        no_local options.initiating_command_line,
    ap (λ run. (run []).1) (execute-checked (check_flags options))
        ∙ checked-asserts empty_modifiers (execute_flags options false (check_flags options))
            no_local (checked_ok p) p.driver (check_flags-incompatible c),
  )
