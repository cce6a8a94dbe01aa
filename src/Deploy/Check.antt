-- ===== src/Deploy/Check.antt =====
-- The first part of deploy_transaction_execute of src/daemon/rpmostreed-transaction-types.cxx, which
-- refuses a request before any work is done.
use rpm_ostree.Prelude.{
  ℕ, Bool, true, false, not, ◌&&◌, ◌||◌, Option, none, some, List, ◌++◌, if◌then◌else◌, ◌==◌,
  is_some,
}
use rpm_ostree.Prelude.Text.{Text, codes}
use rpm_ostree.Prelude.Result.{Result, ok, error}
use rpm_ostree.Txn.Effects.{vardict_lookup_bool}
use rpm_ostree.Deploy.Request.{DeployOptions, Modifiers, given}
use rpm_ostree.Deploy.Fds.{asserted, LocalFds, is_minus_one, expected_fdn, actual_fdn, split_fds}

-- The `refspec` and `revision` of a transaction.
pub record Target : Type 0 where
  pub refspec : Option Text
  pub revision : Option Text

-- After the first statement: a new transaction has NULL in both, and only "set-refspec" has been read.
unfoldable pub with_refspec : Modifiers → Target
with_refspec m = record { refspec = m.set_refspec; revision = none }

-- After "set-revision" has been read too.
unfoldable pub with_revision : Modifiers → Target
with_revision m = record { refspec = m.set_refspec; revision = m.set_revision }

-- refspec_or_revision, which is computed before "set-revision" is read
unfoldable pub refspec_or_revision : Modifiers → Bool
refspec_or_revision m = is_some (with_refspec m).refspec || is_some (with_refspec m).revision

abbrev pub refuse_if : Bool → Text → Result (Unit {0}) → Result (Unit {0})
refuse_if true message rest = error message
refuse_if false message rest = rest

-- Any of the modifiers of an override is given.
unfoldable pub changes_overrides : Modifiers → Bool
changes_overrides m =
    given m.override_remove_packages
    || given m.override_reset_packages
    || given m.override_replace_packages
    || is_some m.override_replace_local_packages

-- "Also check for conflicting options", with the early checks that follow.
unfoldable pub check_options : DeployOptions → Modifiers → LocalFds → Result (Unit {0})
check_options options m local =
    refuse_if
      (not (is_some (with_revision m).refspec) && vardict_lookup_bool options.skip_purge false)
      (codes "Can't specify skip-purge if not setting a new refspec")
      (refuse_if (refspec_or_revision m && vardict_lookup_bool options.opt_no_pull_base false)
        (codes "Can't specify no-pull-base if setting a new refspec or revision")
        (refuse_if
          (vardict_lookup_bool options.cache_only false
            && vardict_lookup_bool options.opt_download_only false)
          (codes "Can't specify cache-only and download-only")
          (refuse_if
            (vardict_lookup_bool options.opt_dry_run false
              && vardict_lookup_bool options.opt_download_only false)
            (codes "Can't specify dry-run and download-only")
            (refuse_if (given m.override_replace_packages)
              (codes "Non-local replacement overrides not implemented yet")
              (refuse_if (vardict_lookup_bool options.no_overrides false && changes_overrides m)
                (codes "Can't specify no-overrides if setting override modifiers")
                (refuse_if
                  (not (is_some (with_revision m).refspec)
                    && not (is_minus_one local.local_repo_remote_dfd))
                  (codes "Missing ref for transient local rebases")
                  (refuse_if
                    (is_some (with_revision m).revision
                      && not (is_minus_one local.local_repo_remote_dfd))
                    (codes "Revision overrides for transient local rebases not implemented yet")
                    (refuse_if
                      (vardict_lookup_bool options.apply_live false
                        && vardict_lookup_bool options.want_reboot false)
                      (codes "Cannot specify `apply-live` and `reboot`")
                      (refuse_if (given m.install_fileoverride_packages)
                        (codes "Non-local fileoverrides not implemented") (ok tt))))))))))

-- The prefix of deploy_transaction_execute, for `print_u` the %u of printf: `none` if an assertion
-- fails, and else whether the request is refused.
module _ (print_u : ℕ → Text) where
  unfoldable pub check_request :
      DeployOptions → Modifiers → Option (List ℕ) → Option (Result (Unit {0}))
  check_request options m fd_list =
      if not (expected_fdn m == actual_fdn fd_list)
      then some (
          error (
            codes "Expected "
            ++ print_u (expected_fdn m)
            ++ codes " fds but received "
            ++ print_u (actual_fdn fd_list)))
      else asserted (split_fds fd_list m) (λ local. some (check_options options m local))
