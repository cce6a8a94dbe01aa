-- ===== src/Deploy/Overrides.antt =====
-- The local packages of a request and its overrides, in deploy_transaction_execute and
-- import_many_local_rpms of src/daemon/rpmostreed-transaction-types.cxx. The name of a package in a
-- nevra, the check of a checksum and the importer are parameters.
use rpm_ostree.Prelude.{
  ℕ, Bool, false, Option, none, some, List, [], ◌∷◌, ◌++◌, if◌then◌else◌, ◌==◌, ltb, length,
  get_elem?,
}
use rpm_ostree.Prelude.Text.{Text, text_eq, codes}
use rpm_ostree.Prelude.Result.{Result, ok, error, bind, Action, pure, throw, perform, ◌>>=◌, ◌>>◌}
use rpm_ostree.Prelude.Int.{ℤ}
use rpm_ostree.Deploy.Finish.{DeployStep, assertion_failed}
use rpm_ostree.Deploy.Origin.{TreefileApi}

-- g_hash_table_insert and g_hash_table_lookup on an association list, the last insertion first.
abbrev pub Table : Type 0
Table = List (Text × Text)

abbrev pub lookup : Table → Text → Option Text
lookup [] key = none
lookup ((k, v) ∷ table) key = let rest = lookup table key in if text_eq k key then some v else rest

-- name_to_nevra and nevra_to_name
pub record Names : Type 0 where
  pub name_to_nevra : Table
  pub nevra_to_name : Table

abbrev pub no_names : Names
no_names = record { name_to_nevra = []; nevra_to_name = [] }

-- gv_nevra_add_nevra_name_mappings, for a nevra and its name
unfoldable pub add_nevra_name_mappings : Names → Text × Text → Names
add_nevra_name_mappings names (nevra, name) = record {
  name_to_nevra = (name, nevra) ∷ names.name_to_nevra;
  nevra_to_name = (nevra, name) ∷ names.nevra_to_name;
}

abbrev pub add_all : Names → List (Text × Text) → Names
add_all names [] = names
add_all names (p ∷ pairs) = add_all (add_nevra_name_mappings names p) pairs

-- What the functions on package names are.
pub record NevraApi : Type 0 where
  pub validate_checksum_string : Text → Result (Unit {0})
  pub decompose_nevra : Text → Result Text

abbrev pub drop_bytes : ℕ → Text → Text
drop_bytes n [] = []
drop_bytes n (b ∷ t) = elim n [ ℕ.zero ↦ b ∷ t | ℕ.suc k ↦ drop_bytes k t ]

abbrev pub take_bytes : ℕ → Text → Text
take_bytes n [] = []
take_bytes n (b ∷ t) = elim n [ ℕ.zero ↦ [] | ℕ.suc k ↦ b ∷ take_bytes k t ]

abbrev pub is_colon : Option ℕ → Bool
is_colon none = false
is_colon (some b) = b == 58

module _ (nevra_api : NevraApi) where
  -- rpmostree_decompose_sha256_nevra of src/libpriv/rpmostree-util.cxx: the checksum and the nevra.
  unfoldable pub decompose_sha256_nevra : Text → Result (Text × Text)
  decompose_sha256_nevra text =
      if ltb (length text) 66
      then error (codes "Invalid sha256-nevra: " ++ text)
      else if is_colon (get_elem? text 64)
      then bind (nevra_api.validate_checksum_string (take_bytes 64 text))
          (λ _. ok (take_bytes 64 text, drop_bytes 65 text))
      else error (codes "Invalid sha256-nevra: " ++ text)

  -- The nevra and the name of a package that is recorded with its checksum.
  abbrev pub recorded_names : Text → Result (Text × Text)
  recorded_names text =
      bind (decompose_sha256_nevra text)
        (λ p. bind (nevra_api.decompose_nevra p.1) (λ name. ok (p.1, name)))

  -- The mappings of the overrides in the origin.
  unfoldable pub add_recorded : Names → List Text → Result Names
  add_recorded names [] = ok names
  add_recorded names (text ∷ texts) =
      bind (recorded_names text) (λ p. add_recorded (add_nevra_name_mappings names p) texts)

-- The name and the nevra to try for a name or a nevra; `none` where both are mapped, which the code
-- asserts not to happen.
unfoldable pub name_and_nevra : Text → Option Text → Option Text → Option (Text × Text)
name_and_nevra given none none = some (given, given)
name_and_nevra given none (some nevra) = some (given, nevra)
name_and_nevra given (some name) none = some (name, given)
name_and_nevra given (some name) (some nevra) = none

abbrev pub no_overrides_for : Text → Text
no_overrides_for given = codes "No overrides for package '" ++ given ++ codes "'"

module _ {O : Type 0} (api : TreefileApi O) where
  abbrev pub try_local : Text → Text → O → Action DeployStep O
  try_local given nevra origin =
      let r = api.remove_package_override_replace_local origin nevra in
      if r.1 then pure r.0 else throw (no_overrides_for given)

  abbrev pub try_remove : Text → Text × Text → O → Action DeployStep O
  try_remove given (name, nevra) origin =
      let r = api.remove_package_override_remove origin name in
      if r.1 then pure r.0 else try_local given nevra r.0

  abbrev pub try_mapped : Text → Option (Text × Text) → O → Action DeployStep O
  try_mapped given none origin =
      perform assertion_failed >> throw (codes "code should not be reached")
  try_mapped given (some p) origin = try_remove given p origin

  -- One iteration of the loop over override_reset_pkgs.
  unfoldable pub reset_override : Names → Text → O → Action DeployStep O
  reset_override names given origin =
      let r = api.remove_package_override_replace origin given in
      if r.1
      then pure r.0
      else try_mapped given
          (name_and_nevra given (lookup names.nevra_to_name given)
            (lookup names.name_to_nevra given))
          r.0

  unfoldable pub reset_overrides : Names → List Text → O → Action DeployStep O
  reset_overrides names [] origin = pure origin
  reset_overrides names (given ∷ rest) origin =
      reset_override names given origin >>= reset_overrides names rest

  abbrev pub drop_mapped : Option Text → O → O
  drop_mapped none origin = origin
  drop_mapped (some nevra) origin = (api.remove_package_override_replace_local origin nevra).0

  -- The loop over the imported packages, which drops the replacements of the same names.
  unfoldable pub drop_replaced : NevraApi → Names → List Text → O → Result O
  drop_replaced nevra_api names [] origin = ok origin
  drop_replaced nevra_api names (text ∷ texts) origin = bind (recorded_names nevra_api text) (λ p.
      drop_replaced nevra_api names texts (drop_mapped (lookup names.name_to_nevra p.1) origin))

-- How the calls of an import of local packages end: the start of the transaction, the policy, the
-- importer on a descriptor (the checksum of the header and the nevra), and the commit.
pub record LocalRpmEnv : Type 0 where
  pub transaction_start : Result (Unit {0})
  pub open_rootfs : Result (Unit {0})
  pub new_sepolicy : Result (Unit {0})
  pub importer_run : ℤ → Result (Text × Text)
  pub commit_transaction : Result (Unit {0})

-- import_local_rpm
unfoldable pub import_local_rpm : LocalRpmEnv → ℤ → Result Text
import_local_rpm env fd = bind (env.importer_run fd) (λ p. ok (p.0 ++ codes ":" ++ p.1))

abbrev pub import_each : LocalRpmEnv → List ℤ → Result (List Text)
import_each env [] = ok []
import_each env (fd ∷ fds) =
    bind (import_local_rpm env fd) (λ text. bind (import_each env fds) (λ texts. ok (text ∷ texts)))

-- import_many_local_rpms
unfoldable pub import_many : LocalRpmEnv → List ℤ → Result (List Text)
import_many env fds = bind env.transaction_start (λ _. bind env.open_rootfs (λ _.
    bind env.new_sepolicy
      (λ _. bind (import_each env fds) (λ texts. bind env.commit_transaction (λ _. ok texts)))))

-- A package that matches: its name and its nevra.
abbrev pub Sack : Type 0
Sack = Text → List (Text × Text)

abbrev pub only_match : Text → List (Text × Text) → Result Text
only_match pkg [] = error (codes "Package \"" ++ pkg ++ codes "\" not found")
only_match pkg (p ∷ []) = ok p.0
only_match pkg (p ∷ q ∷ pkgs) = error (codes "Multiple packages match \"" ++ pkg ++ codes "\"")

-- The loop over override_remove_pkgs: the names of the packages.
unfoldable pub canonical_names : Sack → List Text → Result (List Text)
canonical_names sack [] = ok []
canonical_names sack (pkg ∷ pkgs) =
    bind (only_match pkg (sack pkg))
      (λ name. bind (canonical_names sack pkgs) (λ names. ok (name ∷ names)))

abbrev pub nevras_of : List (Text × Text) → Text
nevras_of [] = []
nevras_of (p ∷ pkgs) = codes " " ++ p.1 ++ nevras_of pkgs

abbrev pub refuse_provided : Text → Bool → List (Text × Text) → Result (Unit {0})
refuse_provided pkg allow_inactive [] = ok tt
refuse_provided pkg allow_inactive (p ∷ pkgs) =
    if allow_inactive
    then ok tt
    else error (
        codes "\""
        ++ pkg
        ++ codes "\" is already provided by:"
        ++ nevras_of (p ∷ pkgs)
        ++ codes ". Use --allow-inactive to explicitly require it.")

-- The loop over install_pkgs that refuses what the base has.
unfoldable pub check_provided : Sack → Bool → List Text → Result (Unit {0})
check_provided sack allow_inactive [] = ok tt
check_provided sack allow_inactive (pkg ∷ pkgs) =
    bind (refuse_provided pkg allow_inactive (sack pkg))
      (λ _. check_provided sack allow_inactive pkgs)
