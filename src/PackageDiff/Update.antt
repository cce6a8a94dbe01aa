-- ===== src/PackageDiff/Update.antt =====
-- The part of an update's description that compares two commits: rpm_diff_add_db_diff of
-- src/daemon/rpmostreed-deployment-utils.cxx, on rpm_ostree_db_diff_ext of src/lib/rpmostree-db.c.
use Prim.Native.Nat.{Ordering}
use rpm_ostree.Prelude.{
  suc, ◌≡◌, refl, sym, ap, ◌∙◌, subst, inl, inr, Bool, true, false, Option, none, some, List, [],
  ◌∷◌, ◌++◌, length, ◌==◌, ==_iff, if◌then◌else◌, if_true, append_assoc, append-nil, Bool-cases,
}
use rpm_ostree.Prelude.Text.{Text, strcmp, text_eq, text_eq_refl, codes}
use rpm_ostree.Prelude.Result.{Result, ok, error, bind, prefix_error}
use rpm_ostree.PackageDiff.Defs.{Package, Diff, diff_package_lists}
use rpm_ostree.PackageDiff.Partition.{Changed, diff_package_lists-IsPartition}

-- The value of modified_pkg_variant_new.
pub record Modified : Type 0 where
  pub name : Text
  pub evr_old : Text
  pub arch_old : Text
  pub evr_new : Text
  pub arch_new : Text

-- RpmDiff; a single package is given by itself.
pub record RpmDiff : Type 0 where
  pub upgraded : List Modified
  pub downgraded : List Modified
  pub removed : List Package
  pub added : List Package

abbrev or_else : Ordering → Ordering → Ordering
or_else Ordering.eq o = o
or_else Ordering.lt o = Ordering.lt
or_else Ordering.gt o = Ordering.gt

abbrev pub modified : Package → Package → Modified
modified p q = record {
  name = p.name;
  evr_old = p.evr;
  arch_old = p.arch;
  evr_new = q.evr;
  arch_new = q.arch;
}

abbrev is_lt : Ordering → Bool
is_lt Ordering.lt = true
is_lt Ordering.eq = false
is_lt Ordering.gt = false

module _ (evr_cmp : Text → Text → Ordering) where
  unfoldable pub package_cmp : Package → Package → Ordering
  package_cmp p q =
      or_else (strcmp p.name q.name) (or_else (evr_cmp p.evr q.evr) (strcmp p.arch q.arch))

  abbrev pub is_upgrade : Package → Package → Bool
  is_upgrade p q = is_lt (package_cmp p q)

  -- One round of the loop over the modified packages, behind the assertion on the names.
  abbrev pub add_modified : Package → Package → RpmDiff → RpmDiff
  add_modified p q diff =
      if is_upgrade p q
      then record diff { upgraded = diff.upgraded ++ modified p q ∷ [] }
      else record diff { downgraded = diff.downgraded ++ modified p q ∷ [] }

  -- The loop; `none` is a failed assertion, or a read behind the end of an array.
  unfoldable pub add_pairs : List Package → List Package → RpmDiff → Option RpmDiff
  add_pairs [] qs diff = some diff
  add_pairs (p ∷ ps) [] diff = none
  add_pairs (p ∷ ps) (q ∷ qs) diff =
      let rest = add_pairs ps qs (add_modified p q diff) in
      if text_eq p.name q.name then rest else none

  abbrev pub diff_with_new : List Package → Option (List Package) → Result (Option Diff)
  diff_with_new a none = ok none
  diff_with_new a (some b) = ok (some (diff_package_lists evr_cmp a b))

  abbrev pub diff_with_orig :
      Option (List Package) → Result (Option (List Package)) → Result (Option Diff)
  diff_with_orig none new = ok none
  diff_with_orig (some a) new =
      bind (prefix_error (codes "Failed to load package list") new) (diff_with_new a)

  -- rpm_ostree_db_diff_ext with allow_noent, for the answers of the look-ups of the two lists; `none`
  -- where a commit has no list.
  unfoldable pub db_diff_ext :
      Result (Option (List Package)) → Result (Option (List Package)) → Result (Option Diff)
  db_diff_ext orig new =
      bind (prefix_error (codes "Failed to load package list") orig) (λ a. diff_with_orig a new)

  abbrev pub added_pairs : Option RpmDiff → Option (Result RpmDiff)
  added_pairs none = none
  added_pairs (some diff) = some (ok diff)

  -- What follows the call in rpm_diff_add_db_diff; `none` is a failed assertion.
  unfoldable pub add_diff : RpmDiff → Option Diff → Option (Result RpmDiff)
  add_diff diff none = some (ok diff)
  add_diff diff (some d) =
      if length d.modified_a == length d.modified_b
      then added_pairs (
          add_pairs d.modified_a d.modified_b (record diff {
            removed = diff.removed ++ d.unique_a;
            added = diff.added ++ d.unique_b;
          }))
      else none

  abbrev pub add_result : RpmDiff → Result (Option Diff) → Option (Result RpmDiff)
  add_result diff (error e) = some (error e)
  add_result diff (ok d) = add_diff diff d

  -- rpm_diff_add_db_diff
  unfoldable pub add_db_diff :
      RpmDiff
      → Result (Option (List Package))
      → Result (Option (List Package))
      → Option (Result RpmDiff)
  add_db_diff diff orig new = add_result diff (db_diff_ext orig new)

  -- The upgrades, and the other changes, among the pairs of two lists, side by side.
  abbrev pub upgrades : List Package → List Package → List Modified
  upgrades [] qs = []
  upgrades (p ∷ ps) [] = []
  upgrades (p ∷ ps) (q ∷ qs) =
      if is_upgrade p q then modified p q ∷ upgrades ps qs else upgrades ps qs

  abbrev pub downgrades : List Package → List Package → List Modified
  downgrades [] qs = []
  downgrades (p ∷ ps) [] = []
  downgrades (p ∷ ps) (q ∷ qs) =
      if is_upgrade p q then downgrades ps qs else modified p q ∷ downgrades ps qs

  abbrev with_pairs : RpmDiff → List Modified → List Modified → RpmDiff
  with_pairs diff us ds = record diff {
    upgraded = diff.upgraded ++ us;
    downgraded = diff.downgraded ++ ds;
  }

  -- The description after two package lists are compared.
  abbrev pub accounted : RpmDiff → Diff → RpmDiff
  accounted diff d = record {
    upgraded = diff.upgraded ++ upgrades d.modified_a d.modified_b;
    downgraded = diff.downgraded ++ downgrades d.modified_a d.modified_b;
    removed = diff.removed ++ d.unique_a;
    added = diff.added ++ d.unique_b;
  }

  Changed-length : (ps qs : List Package) → Changed evr_cmp ps qs → length ps ≡ length qs
  Changed-length [] [] h = refl
  Changed-length [] (q ∷ qs) h = absurd h
  Changed-length (p ∷ ps) [] h = absurd h
  Changed-length (p ∷ ps) (q ∷ qs) h = ap suc (Changed-length ps qs h.1)

  put_upgrade :
      (diff : RpmDiff) (m : Modified) (us ds : List Modified)
      → with_pairs (record diff { upgraded = diff.upgraded ++ m ∷ [] }) us ds
        ≡ with_pairs diff (m ∷ us) ds
  put_upgrade diff m us ds =
      ap (λ u. record diff { upgraded = u; downgraded = diff.downgraded ++ ds })
        (append_assoc diff.upgraded (m ∷ []) us)

  put_downgrade :
      (diff : RpmDiff) (m : Modified) (us ds : List Modified)
      → with_pairs (record diff { downgraded = diff.downgraded ++ m ∷ [] }) us ds
        ≡ with_pairs diff us (m ∷ ds)
  put_downgrade diff m us ds =
      ap (λ u. record diff { upgraded = diff.upgraded ++ us; downgraded = u })
        (append_assoc diff.downgraded (m ∷ []) ds)

  put_none : (diff : RpmDiff) → diff ≡ with_pairs diff [] []
  put_none diff = sym (rw (append-nil diff.upgraded, append-nil diff.downgraded) refl)

  add_pairs-with_pairs :
      (ps qs : List Package) (diff : RpmDiff)
      → Changed evr_cmp ps qs
      → add_pairs ps qs diff ≡ some (with_pairs diff (upgrades ps qs) (downgrades ps qs))
  unfolding add_pairs
  add_pairs-with_pairs [] [] diff h = ap some (put_none diff)
  add_pairs-with_pairs [] (q ∷ qs) diff h = absurd h
  add_pairs-with_pairs (p ∷ ps) [] diff h = absurd h
  add_pairs-with_pairs (p ∷ ps) (q ∷ qs) diff h =
      let same : text_eq p.name q.name ≡ true =
        subst (λ n. text_eq p.name n ≡ true) h.0.0 (text_eq_refl p.name) in
      if_true (text_eq p.name q.name) _ none same ∙ elim (Bool-cases (is_upgrade p q)) [
        | inl e ↦ rw (e) (
            add_pairs-with_pairs ps qs
              (record diff { upgraded = diff.upgraded ++ modified p q ∷ [] }) h.1
            ∙ ap some (put_upgrade diff (modified p q) (upgrades ps qs) (downgrades ps qs)))
        | inr e ↦ rw (e) (
            add_pairs-with_pairs ps qs
              (record diff { downgraded = diff.downgraded ++ modified p q ∷ [] }) h.1
            ∙ ap some (put_downgrade diff (modified p q) (upgrades ps qs) (downgrades ps qs)))
      ]

  -- When both commits have a package list, no assertion on the modified packages fails, and the description
  -- accounts for every difference of the lists: what is unique to one is removed or added, and each
  -- pair of modified packages is an upgrade or a downgrade, in their order.
  pub add_db_diff-accounted :
      (diff : RpmDiff) (a b : List Package)
      → add_db_diff diff (ok (some a)) (ok (some b))
        ≡ some (ok (accounted diff (diff_package_lists evr_cmp a b)))
  unfolding add_db_diff db_diff_ext add_diff
  add_db_diff-accounted diff a b =
      let d = diff_package_lists evr_cmp a b in
      let paired = (diff_package_lists-IsPartition evr_cmp (λ p. true) [] [] a b).paired in
      if_true (length d.modified_a == length d.modified_b) _ none (
        (==_iff (length d.modified_a) (length d.modified_b)).1
          (Changed-length d.modified_a d.modified_b paired))
      ∙ ap added_pairs (add_pairs-with_pairs d.modified_a d.modified_b _ paired)
