-- ===== src/Tests/History.antt =====
-- The history of a branch with three commits, and the theorems of History at it.
use rpm_ostree.Prelude.{
  ℕ, zero, suc, true, false, ◌≡◌, refl, sym, subst, Option, none, some, List, [], ◌∷◌, ◌++◌, All,
  arith,
}
use rpm_ostree.Prelude.Text.{Text, text_eq, codes}
use rpm_ostree.Prelude.Result.{Result, ok, error}
use rpm_ostree.History.Pull.{HistoryApi, pull_ancestry}
use rpm_ostree.History.Lookup.{version_visitor, lookup_version, lookup_checksum}
use rpm_ostree.History.Batch.{Loads, Serves, take}
use rpm_ostree.History.PullLaws.{user_data_of, pull_ancestry-visits}
use rpm_ostree.History.LookupLaws.{lookup_version-newest, lookup_checksum-belongs}

-- The parent and the version.
abbrev Commit : Type 0
Commit = Option Text × Option Text

abbrev three_commits : List (Text × Commit)
three_commits =
    (codes "c", (some (codes "b"), some (codes "38.1")))
    ∷ (codes "b", (some (codes "a"), none))
    ∷ (codes "a", (none, some (codes "38.0")))
    ∷ []

abbrev load_from : List (Text × Commit) → Text → Result Commit
load_from [] c = error (codes "No such metadata object")
load_from ((d, k) ∷ commits) c =
    let rest = load_from commits c in elim (text_eq c d) [ true ↦ ok k | false ↦ rest ]

abbrev branch_api : HistoryApi (Unit {0}) Commit
branch_api = record {
  parse_refspec = λ text. ok (some (codes "fedora"), codes "stable");
  pull_with_options = λ r remote depth ref. ok r;
  resolve_rev = λ r refspec. ok (codes "c");
  load_commit = λ r c. load_from three_commits c;
  get_parent = λ k. k.0;
  get_version = λ k. k.1;
}

take-All : {A : Type 0} (P : A → Type 0) (n : ℕ) (xs : List A) → All P xs → All P (take n xs)
take-All P zero xs h = tt
take-All P (suc n) [] h = tt
take-All P (suc n) (x ∷ xs) h = (h.0, take-All P n xs h.1)

suffix-All :
    {A : Type 0} (P : A → Type 0) (newer older : List A) → All P (newer ++ older) → All P older
suffix-All P [] older h = h
suffix-All P (x ∷ newer) older h = suffix-All P newer older h.1

suffix-Loads :
    (n : ℕ) (newer older : List (Text × Commit))
    → newer ++ older ≡ three_commits
    → Loads branch_api tt (take n older)
unfolding text_eq
suffix-Loads n newer older e =
    take-All _ n older
      (suffix-All _ newer older (subst (Loads branch_api tt) (sym e) (refl, (refl, (refl, tt)))))

branch-Serves :
    Serves branch_api (codes "fedora:stable") (some (codes "fedora")) (codes "stable") three_commits
unfolding rpm_ostree.History.Pull.fetch text_eq
branch-Serves = record {
  parses = refl;
  linked = (refl, (refl, (refl, tt)));
  newest = codes "c";
  newest_head = refl;
  pull_newest = λ r. (tt, refl, refl, (refl, tt));
  pull_older = λ r depth c newer older e h. (tt, refl, suffix-Loads (suc depth) newer older e);
}

pull_ancestry-visits_example :
    user_data_of (
      pull_ancestry branch_api
        (some (version_visitor branch_api (codes "38.0")))
        5
        tt
        (codes "fedora:stable")
        none)
    ≡ some (ok (some (codes "a")))
unfolding version_visitor text_eq
pull_ancestry-visits_example =
    pull_ancestry-visits (version_visitor branch_api (codes "38.0")) branch_api branch-Serves
      (omega arith) 5 tt none (omega arith)

lookup_version-newest_example :
    lookup_version branch_api 5 tt (codes "fedora:stable") (codes "38.1") ≡ some (ok (codes "c"))
unfolding text_eq
lookup_version-newest_example =
    lookup_version-newest branch_api branch-Serves (omega arith) 5 (omega arith) tt (codes "38.1")

lookup_checksum-belongs_example :
    lookup_checksum branch_api 5 tt (codes "fedora:stable") (codes "b") ≡ some (ok tt)
unfolding text_eq
lookup_checksum-belongs_example =
    lookup_checksum-belongs branch_api branch-Serves (omega arith) 5 (omega arith) tt (codes "b")
