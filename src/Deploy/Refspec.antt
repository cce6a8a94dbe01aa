-- ===== src/Deploy/Refspec.antt =====
-- Rebasing: change_origin_refspec and apply_revision_override of
-- src/daemon/rpmostreed-transaction-types.cxx, and rpmostreed_refspec_parse_partial of
-- src/daemon/rpmostreed-utils.cxx. ostree_parse_refspec of libostree and the functions of the Rust code
-- are parameters.
use rpm_ostree.Prelude.{
  Bool, true, false, not, ◌&&◌, Option, none, some, List, [], ◌∷◌, ◌++◌, if◌then◌else◌, ◌==◌,
}
use rpm_ostree.Prelude.Text.{Text, text_eq, has_prefix, codes}
use rpm_ostree.Prelude.Result.{
  Result, ok, error, bind, Action, pure, throw, call, perform, throw_if, do_if, ◌>>=◌, ◌>>◌,
}
use rpm_ostree.Deploy.Finish.{RefspecType, container, ostree, checksum}

-- The text without a last ":", if it has one: g_str_has_suffix, and g_strndup of all but the last byte.
unfoldable pub without_colon : Text → Option Text
without_colon [] = none
without_colon (a ∷ []) = if a == 58 then some [] else none
without_colon (a ∷ b ∷ t) = elim (without_colon (b ∷ t)) [
  | none ↦ none
  | some rest ↦ some (a ∷ rest)
]

-- A refspec that may lack its remote or its ref, and whether the remote may be inferred.
pub record Partial : Type 0 where
  pub remote : Option Text
  pub ref : Option Text
  pub infer_remote : Bool

abbrev pub parsed : Option Text × Text → Partial
parsed (remote, ref) = record { remote = remote; ref = some ref; infer_remote = true }

-- g_str_has_prefix (text, ":"), and the rest
abbrev pub after_colon : Text → Option Text
after_colon [] = none
after_colon (a ∷ t) = if a == 58 then some t else none

abbrev pub joined : Option Text → Text → Text
joined none ref = ref
joined (some remote) ref = remote ++ 58 ∷ ref

module _ (parse_refspec : Text → Result (Option Text × Text)) where
  abbrev pub provided_local : Option Text → Text → Result Partial
  provided_local none text = bind (parse_refspec text) (λ r. ok (parsed r))
  provided_local (some ref) text =
      ok (record { remote = none; ref = some ref; infer_remote = false })

  abbrev pub provided_remote : Option Text → Text → Result Partial
  provided_remote none text = provided_local (after_colon text) text
  provided_remote (some remote) text =
      ok (record { remote = some remote; ref = none; infer_remote = true })

  -- What is provided, before the base is looked at.
  unfoldable pub provided : Text → Result Partial
  provided text = provided_remote (without_colon text) text

  -- The remote and the ref of the base.
  unfoldable pub origin_of : Option Text → Result (Option Text × Option Text)
  origin_of none = ok (none, none)
  origin_of (some base) = bind (parse_refspec base) (λ r. ok (r.0, some r.1))

  abbrev pub inferred : Bool → Option Text → Option Text → Option Text
  inferred infer (some remote) origin_remote = some remote
  inferred infer none origin_remote = if infer then origin_remote else none

  unfoldable pub completed : Option Text → Partial → Option Text × Option Text → Result Text
  completed (some ref) new (origin_remote, origin_ref) =
      ok (joined (inferred new.infer_remote new.remote origin_remote) ref)
  completed none new (origin_remote, some ref) = ok (joined new.remote ref)
  completed none new (origin_remote, none) =
      error (codes "Could not determine default ref to pull.")

  -- rpmostreed_refspec_parse_partial
  unfoldable pub refspec_parse_partial : Text → Option Text → Result Text
  refspec_parse_partial new base =
      bind (provided new) (λ r. bind (origin_of base) (λ o. completed r.ref r o))

-- What is done to the origin: rpmostree_origin_set_rebase_custom and
-- rpmostree_origin_set_override_commit.
pub data OriginEdit : Type 0 where
  rebase : Text → Option Text → Option Text → OriginEdit
  override_commit : Text → OriginEdit

-- The refspec of the origin, with its type.
pub record Refspec : Type 0 where
  pub kind : RefspecType
  pub refspec : Text

-- The functions that are called.
pub record RefspecApi : Type 0 where
  pub parse_refspec : Text → Result (Option Text × Text)
  pub refspec_classify : Text → RefspecType
  pub is_digest : Text → Bool

abbrev pub is_container : RefspecType → Bool
is_container container = true
is_container ostree = false
is_container checksum = false

abbrev pub text_is_empty : Text → Bool
text_is_empty [] = true
text_is_empty (b ∷ t) = false

-- custom_origin_url && *custom_origin_url, without a description
abbrev pub invalid_custom : Option (Text × Text) → Bool
invalid_custom none = false
invalid_custom (some (url, description)) = not (text_is_empty url) && text_is_empty description

abbrev pub first_of : Option (Text × Text) → Option Text
first_of none = none
first_of (some (url, description)) = some url

abbrev pub second_of : Option (Text × Text) → Option Text
second_of none = none
second_of (some (url, description)) = some description

-- The rebase to a container image: the result is the old and the new refspec.
unfoldable pub rebase_container :
    RefspecApi → Refspec → Text → Option (Text × Text) → Action OriginEdit (Option Text × Text)
rebase_container api current new custom =
    let kept = if api.is_digest new then custom else none in
    perform (rebase new (first_of kept) (second_of kept))
    >> throw_if (is_container current.kind && text_eq current.refspec new)
        (codes "Old and new refs are equal: " ++ new)
    >> pure (some current.refspec, new)

-- prev_ostree_refspec
abbrev pub prev_ostree_refspec : RefspecType → Text → Option Text
prev_ostree_refspec container text = none
prev_ostree_refspec ostree text = some text
prev_ostree_refspec checksum text = some text

abbrev pub rebase_to :
    RefspecType → Refspec → Text → Option (Text × Text) → Action OriginEdit (Unit {0})
rebase_to checksum current new custom = perform (rebase new (first_of custom) (second_of custom))
rebase_to ostree current new custom =
    throw_if (text_eq current.refspec new) (codes "Old and new refs are equal: " ++ new)
    >> perform (rebase new none none)
rebase_to container current new custom =
    throw_if (text_eq current.refspec new) (codes "Old and new refs are equal: " ++ new)
    >> perform (rebase new none none)

unfoldable pub rebase_ostree :
    RefspecApi → Refspec → Text → Option (Text × Text) → Action OriginEdit (Option Text × Text)
rebase_ostree api current text custom =
    let prev = prev_ostree_refspec current.kind current.refspec in
    call (refspec_parse_partial api.parse_refspec text prev) >>= λ new.
    rebase_to (api.refspec_classify new) current new custom >> pure (prev, new)

abbrev pub drop : {A : Type 0} → List A → List A → List A
drop [] xs = xs
drop (p ∷ ps) [] = []
drop (p ∷ ps) (x ∷ xs) = drop ps xs

-- The text after "ostree://", if it starts with that.
abbrev pub without_scheme : Text → Text
without_scheme text =
    if has_prefix text (codes "ostree://") then drop (codes "ostree://") text else text

-- change_origin_refspec, without its message and the assertions that precede that; `custom` is the
-- option "custom-origin".
unfoldable pub change_origin_refspec :
    RefspecApi → Refspec → Text → Option (Text × Text) → Action OriginEdit (Option Text × Text)
change_origin_refspec api current provided custom =
    let text = without_scheme provided in
    throw_if (invalid_custom custom) (codes "Invalid custom-origin")
    >> (if is_container (api.refspec_classify text)
        then rebase_container api current text custom
        else rebase_ostree api current text custom)

pub data ParsedRevisionKind : Type 0 where
  version_kind : ParsedRevisionKind
  checksum_kind : ParsedRevisionKind

-- parse_revision of the Rust code, and the look-ups in the history of a refspec
pub record RevisionApi : Type 0 where
  pub parse_revision : Text → Result (ParsedRevisionKind × Text)
  pub lookup_version : Text → Text → Result Text
  pub lookup_checksum : Text → Text → Result (Unit {0})

abbrev pub override_parsed :
    RevisionApi → Text → Bool → ParsedRevisionKind × Text → Action OriginEdit (Unit {0})
override_parsed api refspec skip_check (version_kind, value) =
    call (api.lookup_version refspec value) >>= λ commit. perform (override_commit commit)
override_parsed api refspec skip_check (checksum_kind, value) =
    do_if (not skip_check) (call (api.lookup_checksum refspec value))
    >> perform (override_commit value)

abbrev pub override_kind :
    RevisionApi → RefspecType → Text → Bool → Text → Action OriginEdit (Unit {0})
override_kind api checksum refspec skip_check revision =
    throw (codes "Cannot look up version while pinned to commit")
override_kind api container refspec skip_check revision = perform (override_commit revision)
override_kind api ostree refspec skip_check revision =
    call (api.parse_revision revision) >>= override_parsed api refspec skip_check

-- apply_revision_override; `none` is a NULL revision.
unfoldable pub apply_revision_override :
    RevisionApi → Refspec → Bool → Option Text → Action OriginEdit (Unit {0})
apply_revision_override api current skip_check none = throw (codes "Missing revision")
apply_revision_override api current skip_check (some revision) =
    override_kind api current.kind current.refspec skip_check revision
