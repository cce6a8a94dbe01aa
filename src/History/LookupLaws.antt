-- ===== src/History/LookupLaws.antt =====
-- What the look-ups in the history of a branch find.
use rpm_ostree.Prelude.{
  ℕ, ◌+◌, ◌^◌, ◌<◌, ◌≡◌, refl, ap, ◌∙◌, false, Option, none, some, List, [], ◌∷◌, length, any,
  if◌then◌else◌, arith,
}
use rpm_ostree.Prelude.Text.{Text, text_eq}
use rpm_ostree.Prelude.Result.{Result, ok, error}
use rpm_ostree.History.Pull.{HistoryApi}
use rpm_ostree.History.Lookup.{
  has_version, version_visitor, checksum_visitor, version_answer, checksum_answer, lookup_version,
  lookup_checksum,
}
use rpm_ostree.History.Batch.{Serves, visit_all}
use rpm_ostree.History.PullLaws.{user_data_of, pull_ancestry-visits}

user_data_of-ok :
    {R V : Type 0} (x : Option (Result (R × V))) (v : V)
    → user_data_of x ≡ some (ok v)
    → (r : R) × (x ≡ some (ok (r, v)))
user_data_of-ok none v e = cc
user_data_of-ok (some (error m)) v e = cc
user_data_of-ok (some (ok (r, w))) v e = (r, ground (arith, e))

module _ {R Commit : Type 0} (api : HistoryApi R Commit) where
  -- The first commit of a list with the version.
  abbrev pub newest_with : Text → List (Text × Commit) → Option Text
  newest_with version [] = none
  newest_with version ((c, k) ∷ older) =
      if has_version version (api.get_version k) then some c else newest_with version older

  version_visitor-all :
      (version : Text) (commits : List (Text × Commit))
      → visit_all (version_visitor api version) commits none ≡ ok (newest_with version commits)
  unfolding version_visitor
  version_visitor-all version [] = refl
  version_visitor-all version ((c, k) ∷ older) = ground (arith, version_visitor-all version older)

  checksum_visitor-all :
      (wanted : Text) (commits : List (Text × Commit))
      → visit_all (checksum_visitor api wanted) commits false
        ≡ ok (any (λ e. text_eq e.0 wanted) commits)
  unfolding checksum_visitor
  checksum_visitor-all wanted [] = refl
  checksum_visitor-all wanted ((c, k) ∷ older) = ground (arith, checksum_visitor-all wanted older)

  module _ {refspec : Text} {remote : Option Text} {ref : Text} {history : List (Text × Commit)}
      (serves : Serves api refspec remote ref history) (short : length history < 2 ^ 28) (fuel : ℕ)
      (enough : length history + 1 < fuel) (r : R) where
    -- When the repository serves the history, which has fewer than 2^28 commits, and the fuel exceeds
    -- their number by two, the look-up of a version answers with the newest commit that has it, and with
    -- an error if there is none.
    pub lookup_version-newest :
        (version : Text)
        → lookup_version api fuel r refspec version
          ≡ some (version_answer refspec version (newest_with version history))
    unfolding lookup_version
    lookup_version-newest version =
        let (r', e) = user_data_of-ok _ _ (
          pull_ancestry-visits (version_visitor api version) api serves short fuel r none enough
          ∙ ap some (version_visitor-all version history)) in
        rw (lookup_version, e)

    -- When the repository serves the history, which has fewer than 2^28 commits, and the fuel exceeds
    -- their number by two, the look-up of a checksum succeeds if it is one of the history's, and fails
    -- if it is not.
    pub lookup_checksum-belongs :
        (checksum : Text)
        → lookup_checksum api fuel r refspec checksum
          ≡ some (checksum_answer refspec checksum (any (λ e. text_eq e.0 checksum) history))
    unfolding lookup_checksum
    lookup_checksum-belongs checksum =
        let (r', e) = user_data_of-ok _ _ (
          pull_ancestry-visits (checksum_visitor api checksum) api serves short fuel r false enough
          ∙ ap some (checksum_visitor-all checksum history)) in
        rw (lookup_checksum, e)
