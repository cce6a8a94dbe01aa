-- ===== src/Upgrader/PullBase.antt =====
-- rpmostree_sysroot_upgrader_pull_base of src/daemon/rpmostree-sysroot-upgrader.cxx.
use rpm_ostree.Prelude.{
  Bool, true, false, not, ◌&&◌, Option, none, some, [], ◌∷◌, ◌++◌, if◌then◌else◌, is_some,
}
use rpm_ostree.Prelude.Text.{Text, text_eq, codes}
use rpm_ostree.Prelude.Result.{
  Result, ok, error, prefix_error, Action, pure, throw, call, perform, attempt, do_if, ◌>>=◌, ◌>>◌,
}
use rpm_ostree.Deploy.Finish.{RefspecType, container, ostree, checksum}
use rpm_ostree.Deploy.Refspec.{Refspec}

-- The options of a pull from a remote.
pub record PullOptions : Type 0 where
  pub remote : Text
  pub ref : Text
  pub subdir : Option Text
  pub commit_only : Bool
  pub timestamp_check : Bool
  pub override_commit_id : Option Text

-- What the pull does to the outside.
pub data PullStep : Type 0 where
  pull_container_image : Text → PullStep
  verified_message : Text → PullStep
  set_ref_immediate : Text → Text → Text → PullStep
  pull_with_options : PullOptions → PullStep
  assertion_failed : PullStep

-- The directory to pull, the fields of the upgrader that are read, and how the calls end.
pub record PullEnv : Type 0 where
  pub dir_to_pull : Text
  pub allow_older : Bool
  pub synthetic : Bool
  pub override_commit_s : Text
  pub refspec : Refspec
  pub has_origin_merge_deployment : Bool
  pub check_container_update : Result Bool
  pub pull_container : Result (Text × Text)
  pub parse_refspec : Text → Result (Option Text × Text)
  pub is_checksum_string : Text → Bool
  pub set_ref : Result (Unit {0})
  pub pull_remote : PullOptions → Result (Unit {0})
  pub resolve_rev : Text → Result Text
  pub check_timestamps : Text → Text → Result (Unit {0})

abbrev pub or_null : Text → Option Text
or_null [] = none
or_null (b ∷ t) = some (b ∷ t)

abbrev pub text_or : Option Text → Text → Text
text_or none text = text
text_or (some given) text = given

module _ (env : PullEnv) where
  abbrev pub override_commit : Option Text
  override_commit = or_null env.override_commit_s

  abbrev pub options_of : Bool → Text → Text → PullOptions
  options_of check remote ref = record {
    remote = remote;
    ref = ref;
    subdir = or_null env.dir_to_pull;
    commit_only = check;
    timestamp_check = not env.allow_older;
    override_commit_id = override_commit;
  }

  -- The pull from the remote of the refspec.
  unfoldable pub pull_from : Bool → Text → Text → Text → Action PullStep (Unit {0})
  pull_from check base remote ref =
      do_if (not env.allow_older && is_some override_commit)
        (attempt (set_ref_immediate remote ref base) env.set_ref)
      >> attempt (pull_with_options (options_of check remote ref)) (
          prefix_error (codes "While pulling " ++ text_or override_commit ref)
            (env.pull_remote (options_of check remote ref)))

  abbrev pub pull_if_remote : Bool → Text → Option Text → Text → Action PullStep (Unit {0})
  pull_if_remote check base none ref = pure tt
  pull_if_remote check base (some remote) ref =
      if env.synthetic
      then pure tt
      else if env.is_checksum_string ref
      then pure tt
      else pull_from check base remote ref

  abbrev pub target_rev : Option Text → Action PullStep Text
  target_rev none = call (env.resolve_rev env.refspec.refspec)
  target_rev (some commit) = pure commit

  abbrev pub pull_parsed : Bool → Text → Option Text × Text → Action PullStep (Unit {0})
  pull_parsed check base (remote, ref) =
      if env.has_origin_merge_deployment
      then pull_if_remote check base remote ref
      else (perform assertion_failed >> throw (codes "assertion failed"))

  abbrev pub pull_named : Bool → Text → Action PullStep (Unit {0})
  pull_named check base = call (env.parse_refspec env.refspec.refspec) >>= pull_parsed check base

  -- The branch of a checksum or a ref: the new base.
  unfoldable pub pull_ostree : Bool → Text → Action PullStep Text
  pull_ostree check base = pull_named check base >> target_rev override_commit

  abbrev pub show_verified : Text → Action PullStep (Unit {0})
  show_verified [] = pure tt
  show_verified (b ∷ t) = perform (verified_message (b ∷ t))

  abbrev pub imported : Result (Text × Text) → Action PullStep Text
  imported (error e) = throw e
  imported (ok (verify_text, merge_commit)) =
      perform (pull_container_image env.refspec.refspec)
      >> show_verified verify_text
      >> pure merge_commit

  -- What follows the switch: whether the base has changed, and the base.
  unfoldable pub settle_base : Text → Text → Action PullStep (Bool × Text)
  settle_base base rev =
      if text_eq rev base
      then pure (false, base)
      else if env.allow_older
      then pure (true, rev)
      else call (
          prefix_error (codes "While checking against deployment timestamp")
            (env.check_timestamps base rev))
        >> pure (true, rev)

  abbrev pub check_container : Text → Action PullStep (Bool × Text)
  check_container base = call env.check_container_update >>= λ changed. pure (changed, base)

  abbrev pub pull_kind : RefspecType → Bool → Text → Action PullStep (Bool × Text)
  pull_kind container check base =
      if check then check_container base else imported env.pull_container >>= settle_base base
  pull_kind ostree check base = pull_ostree check base >>= settle_base base
  pull_kind checksum check base = pull_ostree check base >>= settle_base base

  -- rpmostree_sysroot_upgrader_pull_base: *out_changed, and base_revision after it; `check` is the flag
  -- COMMIT_ONLY.
  unfoldable pub pull_base : Bool → Text → Action PullStep (Bool × Text)
  pull_base check base = pull_kind env.refspec.kind check base
