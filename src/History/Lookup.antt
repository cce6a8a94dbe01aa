-- ===== src/History/Lookup.antt =====
-- rpmostreed_repo_lookup_version and rpmostreed_repo_lookup_checksum of
-- src/daemon/rpmostreed-utils.cxx, with their visitors.
use rpm_ostree.Prelude.{ℕ, Bool, true, false, Option, none, some, ◌++◌, if◌then◌else◌}
use rpm_ostree.Prelude.Text.{Text, text_eq, codes}
use rpm_ostree.Prelude.Result.{Result, ok, error}
use rpm_ostree.History.Pull.{HistoryApi, Visitor, pull_ancestry}

abbrev pub has_version : Text → Option Text → Bool
has_version version none = false
has_version version (some found) = text_eq found version

abbrev pub version_answer : Text → Text → Option Text → Result Text
version_answer refspec version none =
    error (codes "Version " ++ version ++ codes " not found in " ++ refspec)
version_answer refspec version (some checksum) = ok checksum

abbrev pub checksum_answer : Text → Text → Bool → Result (Unit {0})
checksum_answer refspec checksum true = ok tt
checksum_answer refspec checksum false =
    error (codes "Checksum " ++ checksum ++ codes " not found in " ++ refspec)

module _ {R Commit : Type 0} (api : HistoryApi R Commit) where
  -- The user data is the `checksum` of the closure.
  unfoldable pub version_visitor : Text → Visitor Commit (Option Text)
  version_visitor version user_data checksum commit =
      if has_version version (api.get_version commit)
      then ok (some checksum, true)
      else ok (user_data, false)

  -- The user data is `found` of the closure.
  unfoldable pub checksum_visitor : Text → Visitor Commit Bool
  checksum_visitor wanted user_data checksum commit =
      ok (text_eq checksum wanted, text_eq checksum wanted)

  -- rpmostreed_repo_lookup_version
  unfoldable pub lookup_version : ℕ → R → Text → Text → Option (Result Text)
  lookup_version fuel r refspec version =
      elim (pull_ancestry api (some (version_visitor version)) fuel r refspec none) [
        | none ↦ none
        | some (error e) ↦ some (error e)
        | some (ok (pulled, found)) ↦ some (version_answer refspec version found)
      ]

  -- rpmostreed_repo_lookup_checksum
  unfoldable pub lookup_checksum : ℕ → R → Text → Text → Option (Result (Unit {0}))
  lookup_checksum fuel r refspec checksum =
      elim (pull_ancestry api (some (checksum_visitor checksum)) fuel r refspec false) [
        | none ↦ none
        | some (error e) ↦ some (error e)
        | some (ok (pulled, found)) ↦ some (checksum_answer refspec checksum found)
      ]
