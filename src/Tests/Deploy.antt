-- ===== src/Tests/Deploy.antt =====
-- The transaction that makes a deployment, on concrete requests.
use rpm_ostree.Prelude.{
  ◌≡◌, refl, ◌↔◌, true, false, not, Option, none, some, List, [], ◌∷◌, ◌++◌, length, any,
  if◌then◌else◌, ap, ℕ, zero, suc, arith, ◌==◌,
}
use rpm_ostree.Prelude.Text.{Text, codes, text_eq}
use rpm_ostree.Prelude.Result.{Result, ok}
use rpm_ostree.Prelude.Int.{pos, negsuc}
use rpm_ostree.Deploy.Request.{DeployOptions, Modifiers}
use rpm_ostree.Daemon.Authorize.{Authority, authorize_method}
use rpm_ostree.Deploy.Message.{
  strings, handles, Dict, authorize_view, execute_view, set_entry, with_fileoverrides, Value,
  authorize_method-overlooks_fileoverride,
}
use rpm_ostree.Deploy.Fds.{
  LocalFds, get_fd, get_fd_array_from_sparse, remote_idx, is_minus_one, expected_fdn, split_fds,
}
use rpm_ostree.Deploy.FdsLaws.{handles_in_range, n_local, split_fds-counts}
use rpm_ostree.Deploy.Check.{check_request}
use rpm_ostree.Deploy.CheckLaws.{
  Consistent, check_request-Consistent, check_request-overlooks_revision,
}
use rpm_ostree.Deploy.Finish.{FinishEnv, layering_none, ostree, finish}
use rpm_ostree.Deploy.FinishLaws.{is_deploy, finish-deploys}
use rpm_ostree.Deploy.Refspec.{
  without_colon, provided, origin_of, completed, Refspec, RefspecApi, refspec_parse_partial,
  rebase_ostree,
}
use rpm_ostree.Deploy.RefspecParse.{
  no_colon, IsName, fragments-IsName, Parses, refspec_parse_partial-completes,
}

abbrev no_modifiers : Modifiers
no_modifiers = record {
  set_refspec = none;
  set_revision = none;
  install_packages = none;
  install_fileoverride_packages = none;
  uninstall_packages = none;
  enable_modules = none;
  disable_modules = none;
  install_modules = none;
  uninstall_modules = none;
  override_replace_packages = none;
  override_remove_packages = none;
  override_reset_packages = none;
  install_local_packages = none;
  install_fileoverride_local_packages = none;
  override_replace_local_packages = none;
  local_repo_remote = none;
  treefile = none;
}

-- Two local packages are installed, with the descriptors in another order.
abbrev two_local : Modifiers
two_local = record no_modifiers { install_local_packages = some (pos 1 ∷ pos 0 ∷ []) }

abbrev fds : List ℕ
fds = 7 ∷ 8 ∷ []

abbrev two_split : LocalFds
two_split = record {
  install_local = some (pos 8 ∷ pos 7 ∷ negsuc 0 ∷ []);
  install_fileoverride_local = none;
  override_replace_local = none;
  local_repo_remote_dfd = negsuc 0;
}

two_expected : expected_fdn two_local ≡ 2
unfolding expected_fdn
two_expected = refl

splits_two : split_fds (some fds) two_local ≡ some two_split
unfolding split_fds get_fd get_fd_array_from_sparse
splits_two = refl

split_fds-counts_example : n_local two_split ≡ 2
split_fds-counts_example =
    split_fds-counts fds two_local two_split (omega arith) two_expected splits_two

abbrev no_options : DeployOptions
no_options = record {
  opt_allow_downgrade = none;
  opt_no_pull_base = some true;
  opt_dry_run = none;
  opt_download_only = none;
  skip_purge = none;
  cache_only = none;
  no_overrides = none;
  apply_live = none;
  want_reboot = none;
  register_driver = none;
  initiating_command_line = none;
  no_layering = none;
  no_initramfs = none;
  idempotent_layering = none;
  allow_inactive = none;
  lock_finalization = none;
  skip_branch_check = none;
  ex_cliwrap = none;
  custom_origin = none;
}

-- Numbers in unary.
abbrev print_u : ℕ → Text
print_u zero = []
print_u (suc n) = 49 ∷ print_u n

check_request-Consistent_example :
    (check_request print_u no_options two_local (some fds) ≡ some (ok tt)) ↔ (
      (expected_fdn two_local ≡ length fds)
      × (handles_in_range (length fds) two_local ≡ true)
      × Consistent no_options two_local
          (not (is_minus_one (remote_idx two_local.local_repo_remote))))
check_request-Consistent_example = check_request-Consistent print_u no_options two_local fds

check_request-overlooks_revision_example :
    check_request print_u no_options
      (record two_local { set_revision = some (codes "38.1") })
      (some fds)
    ≡ check_request print_u no_options two_local (some fds)
check_request-overlooks_revision_example =
    check_request-overlooks_revision print_u no_options two_local fds (some (codes "38.1")) refl

abbrev rebase_env : FinishEnv
rebase_env = record {
  flags = record {
    allow_downgrade = true;
    no_pull_base = false;
    dry_run = false;
    download_only = false;
    download_metadata_only = false;
  };
  osname = codes "fedora";
  refspec = some (codes "fedora:38");
  revision = none;
  old_refspec = some (codes "fedora:37");
  skip_base_check = false;
  changed = true;
  remove_changed = false;
  override_changed = false;
  final_kind = ostree;
  custom_description = [];
  has_packages = false;
  booted_osname = some (codes "fedora");
  skip_purge = none;
  apply_live = none;
  want_reboot = some true;
  get_sack_for_booted = ok tt;
  update_variant = ok tt;
  prep_layering = ok (layering_none, false);
  import = ok tt;
  deploy = ok tt;
  purge = ok tt;
  apply = ok tt;
  inhibitor_locks = ok tt;
}

finish-deploys_example : any is_deploy (finish rebase_env []).1 ≡ true
finish-deploys_example = finish-deploys rebase_env layering_none false refl refl refl

-- ostree_parse_refspec as the split at the first colon.
abbrev cons_first : ℕ → Option (Text × Text) → Option (Text × Text)
cons_first a none = none
cons_first a (some (xs, ys)) = some (a ∷ xs, ys)

abbrev split_colon : Text → Option (Text × Text)
split_colon [] = none
split_colon (a ∷ t) =
    let rest = cons_first a (split_colon t) in if a == 58 then some ([], t) else rest

abbrev parsed_from : Text → Option (Text × Text) → Result (Option Text × Text)
parsed_from text none = ok (none, text)
parsed_from text (some (remote, ref)) = ok (some remote, ref)

abbrev parse_refspec : Text → Result (Option Text × Text)
parse_refspec text = parsed_from text (split_colon text)

split_colon-no_colon : (t : Text) → no_colon t ≡ true → split_colon t ≡ none
split_colon-no_colon [] h = refl
split_colon-no_colon (a ∷ t) h = ground (arith, h, split_colon-no_colon t)

split_colon-both :
    (remote ref : Text)
    → no_colon remote ≡ true
    → split_colon (remote ++ 58 ∷ ref) ≡ some (remote, ref)
split_colon-both [] ref h = refl
split_colon-both (a ∷ t) ref h = ground (arith, h, split_colon-both t ref)

IsName-no_colon : (t : Text) → IsName t → no_colon t ≡ true
IsName-no_colon [] h = refl
IsName-no_colon (a ∷ t) h = h

parse_refspec-Parses : Parses parse_refspec
parse_refspec-Parses = record {
  parse-ref = λ ref h.
      ap (parsed_from ref)
        (split_colon-no_colon ref (IsName-no_colon ref (fragments-IsName true ref h)));
  parse-both = λ remote ref h k.
      ap (parsed_from (remote ++ 58 ∷ ref))
        (split_colon-both remote ref (IsName-no_colon remote (fragments-IsName false remote h)));
}

-- The unit test of the source: "baz:" against "foo:bar" is "baz:bar".
refspec_parse_partial-completes_example :
    (refspec_parse_partial parse_refspec (codes "baz:") (some (codes "foo:bar"))
      ≡ ok (codes "baz:bar"))
    × (refspec_parse_partial parse_refspec (codes ":dev") (some (codes "foo:bar"))
        ≡ ok (codes "dev"))
    × (refspec_parse_partial parse_refspec (codes "dev") (some (codes "foo:bar"))
        ≡ ok (codes "foo:dev"))
    × (refspec_parse_partial parse_refspec (codes "baz:dev") (some (codes "foo:bar"))
        ≡ ok (codes "baz:dev"))
refspec_parse_partial-completes_example =
    refspec_parse_partial-completes parse_refspec parse_refspec-Parses (codes "foo") (codes "bar")
      (codes "baz") (codes "dev") refl refl refl refl

abbrev rebase_api : RefspecApi
rebase_api = record {
  parse_refspec = parse_refspec;
  refspec_classify = λ text. ostree;
  is_digest = λ text. false;
}

abbrev foo_bar : Refspec
foo_bar = record { kind = ostree; refspec = codes "foo:bar" }

rebase_ok :
    (rebase_ostree rebase_api foo_bar (codes "baz:") none []).0
    ≡ ok (some (codes "foo:bar"), codes "baz:bar")
unfolding rebase_ostree refspec_parse_partial provided origin_of completed without_colon text_eq
rebase_ok = refl

abbrev plain_install : Dict
plain_install =
    set_entry (codes "install-packages") (some (strings (codes "vim" ∷ []))) (λ key. none)

abbrev caller : Authority
caller = record {
  authorize_direct = ok false;
  get_polkit_authority = ok tt;
  check_authorization = λ p. ok true;
}

abbrev forced : Option Value
forced = some (handles (pos 0 ∷ []))

authorize_method-overlooks_fileoverride_example :
    (authorize_method caller
        (codes "UpdateDeployment")
        (authorize_view (with_fileoverrides forced plain_install) (λ key. none))
      ≡ authorize_method caller
          (codes "UpdateDeployment")
          (authorize_view plain_install (λ key. none)))
    × ((execute_view (with_fileoverrides forced plain_install)).install_fileoverride_local_packages
        ≡ some (pos 0 ∷ []))
authorize_method-overlooks_fileoverride_example =
    authorize_method-overlooks_fileoverride caller plain_install (λ key. none) forced
