-- ===== src/Rpm/HeaderDiff.antt =====
-- rpmhdrs_diff of src/libpriv/rpmostree-rpm-util.cxx: the difference of two package sets, sorted by
-- name. rpmVersionCompare of librpm is a parameter.
use Prim.Native.Nat.{Ordering}
use rpm_ostree.Prelude.{ℕ, Bool, true, false, List, [], ◌∷◌, if◌then◌else◌}
use rpm_ostree.Prelude.Text.{Text, strcmp}

-- An rpm header: its name tag, and the rest as a number.
pub record Header : Type 0 where
  pub name : Text
  pub tags : ℕ

-- struct RpmHeadersDiff
pub record HeadersDiff : Type 0 where
  pub hs_add : List Header
  pub hs_del : List Header
  pub hs_mod_old : List Header
  pub hs_mod_new : List Header

-- rpmhdrs_diff_new
abbrev pub diff_new : HeadersDiff
diff_new = record { hs_add = []; hs_del = []; hs_mod_old = []; hs_mod_new = [] }

-- header_name_cmp
abbrev pub header_name_cmp : Header → Header → Ordering
header_name_cmp h1 h2 = strcmp h1.name h2.name

abbrev pub is_eq : Ordering → Bool
is_eq Ordering.eq = true
is_eq _ = false

module _ (version_compare : Header → Header → Ordering) where
  -- What one round adds to the arrays, in front of what the later rounds add.
  abbrev pub add_both : Header → Header → HeadersDiff → HeadersDiff
  add_both h1 h2 d =
      if is_eq (version_compare h1 h2)
      then d
      else record d { hs_mod_old = h1 ∷ d.hs_mod_old; hs_mod_new = h2 ∷ d.hs_mod_new }

  -- rpmhdrs_diff, with what is left of the two arrays in place of n1 and n2. The second loop is the
  -- clause for the empty list.
  unfoldable pub rpmhdrs_diff : List Header → List Header → HeadersDiff
  rpmhdrs_diff [] [] = diff_new
  rpmhdrs_diff [] (h2 ∷ l2) = let d = rpmhdrs_diff [] l2 in record d { hs_add = h2 ∷ d.hs_add }
  rpmhdrs_diff (h1 ∷ l1) [] = let d = rpmhdrs_diff l1 [] in record d { hs_del = h1 ∷ d.hs_del }
  rpmhdrs_diff (h1 ∷ l1) (h2 ∷ l2) =
      let add = rpmhdrs_diff (h1 ∷ l1) l2 in
      let del = rpmhdrs_diff l1 (h2 ∷ l2) in
      let both = rpmhdrs_diff l1 l2 in
      elim (header_name_cmp h1 h2) [
        | Ordering.gt ↦ record add { hs_add = h2 ∷ add.hs_add }
        | Ordering.lt ↦ record del { hs_del = h1 ∷ del.hs_del }
        | Ordering.eq ↦ add_both h1 h2 both
      ]
