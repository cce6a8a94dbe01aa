-- ===== src/Deploy/CheckLaws.antt =====
-- Which requests pass the first checks, and that these overlook a revision.
use rpm_ostree.Prelude.{
  ℕ, ◌≡◌, ◌↔◌, inl, inr, Bool, true, false, not, ◌&&◌, Option, none, some, List, length, ==_iff,
  is_some, arith,
}
use rpm_ostree.Prelude.Text.{Text}
use rpm_ostree.Prelude.Result.{Result, ok}
use rpm_ostree.Txn.Effects.{vardict_lookup_bool}
use rpm_ostree.Deploy.Request.{DeployOptions, Modifiers, given}
use rpm_ostree.Deploy.Fds.{LocalFds, is_minus_one, remote_idx, expected_fdn, split_fds}
use rpm_ostree.Deploy.FdsLaws.{handles_in_range, split_fds-cases}
use rpm_ostree.Deploy.Check.{
  with_refspec, with_revision, refspec_or_revision, refuse_if, changes_overrides, check_options,
  check_request,
}

-- Two options are not both set.
abbrev NotBoth : Option Bool → Option Bool → Type 0
NotBoth a b = (vardict_lookup_bool a false && vardict_lookup_bool b false) ≡ false

-- What the options and the modifiers of a request must respect, given whether a local repository comes
-- with it.
pub record Consistent (options : DeployOptions) (m : Modifiers) (has_repo : Bool) : Type 0 where
  pub purge : vardict_lookup_bool options.skip_purge false ≡ true → is_some m.set_refspec ≡ true
  pub pull :
      vardict_lookup_bool options.opt_no_pull_base false ≡ true → is_some m.set_refspec ≡ false
  pub cache_or_download : NotBoth options.cache_only options.opt_download_only
  pub dry_or_download : NotBoth options.opt_dry_run options.opt_download_only
  pub only_local_replace : given m.override_replace_packages ≡ false
  pub overrides :
      vardict_lookup_bool options.no_overrides false ≡ true → changes_overrides m ≡ false
  pub repo_refspec : has_repo ≡ true → is_some m.set_refspec ≡ true
  pub repo_revision : has_repo ≡ true → is_some m.set_revision ≡ false
  pub live_or_reboot : NotBoth options.apply_live options.want_reboot
  pub only_local_fileoverride : given m.install_fileoverride_packages ≡ false

refuse_if-ok :
    (b : Bool) (message : Text) (rest : Result (Unit {0}))
    → (refuse_if b message rest ≡ ok tt) ↔ ((b ≡ false) × (rest ≡ ok tt))
refuse_if-ok true message rest = ground arith
refuse_if-ok false message rest = ground arith

-- The check of the options passes exactly for the consistent requests.
pub check_options-Consistent :
    (options : DeployOptions) (m : Modifiers) (local : LocalFds)
    → (check_options options m local ≡ ok tt)
      ↔ Consistent options m (not (is_minus_one local.local_repo_remote_dfd))
unfolding check_options refspec_or_revision with_refspec with_revision
check_options-Consistent options m local = ground arith

module _ (print_u : ℕ → Text) (options : DeployOptions) (m : Modifiers) (fds : List ℕ) where
  -- A request with descriptors passes the first checks exactly when as many descriptors came as it
  -- expects, each of its handles is an index into them, and its options are consistent.
  pub check_request-Consistent : (check_request print_u options m (some fds) ≡ some (ok tt)) ↔ (
      (expected_fdn m ≡ length fds)
      × (handles_in_range (length fds) m ≡ true)
      × Consistent options m (not (is_minus_one (remote_idx m.local_repo_remote))))
  unfolding check_request
  check_request-Consistent = elim (split_fds-cases fds m) [
    | inl (r, e) ↦ ground (arith, r, e, ==_iff (expected_fdn m) (length fds))
    | inr (r, l, e, d) ↦
        ground (
          arith,
          r,
          e,
          d,
          ==_iff (expected_fdn m) (length fds),
          check_options-Consistent options m l,
        )
  ]

  -- Without a local repository, the first checks do not depend on the revision of the request: one that
  -- is given with no-pull-base is not refused for that, and does not change the answer.
  pub check_request-overlooks_revision :
      (r : Option Text)
      → m.local_repo_remote ≡ none
      → check_request print_u options (record m { set_revision = r }) (some fds)
        ≡ check_request print_u options m (some fds)
  unfolding check_request expected_fdn split_fds check_options refspec_or_revision with_refspec
      with_revision changes_overrides
  check_request-overlooks_revision r e = ground (arith, e)
