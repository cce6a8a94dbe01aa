-- ===== src/Tests/Core.antt =====
-- The import of packages and the check of the solver's answer, src/libpriv/rpmostree-core.cxx, on
-- concrete inputs.
use rpm_ostree.Prelude.{
  ℕ, ◌≡◌, ◌↔◌, ◌||◌, Bool, true, some, refl, false, Option, none, List, [], ◌∷◌, arith,
}
use rpm_ostree.Prelude.Text.{Text, codes, text_eq}
use rpm_ostree.Core.Import.{Import, import_packages, context_import}
use rpm_ostree.Core.ImportLoop.{IsFresh, Runs, import_packages-Runs}
use rpm_ostree.Core.ImportEnd.{Completes, context_import-Completes}
use rpm_ostree.Core.Packages.{
  Candidate, Context, find_pkg_in_ostree, load_commit, compare_repodata, found_import,
  chksum_matches, is_nodocs, sort_packages,
}
use rpm_ostree.Prelude.Result.{ok, error}
use rpm_ostree.Core.PackagesLaws.{
  IsAnswered, arrays, filter, needs_download, needs_import, needs_relabel, sort_packages-Sorts,
  has_repodata, PolicyAnswer, find_pkg_in_ostree-reuses,
}
use rpm_ostree.Core.Goal.{Package, Goal, check_goal_solution}
use rpm_ostree.Core.GoalLaws.{is_expected, is_solved}
use rpm_ostree.Core.GoalAccepts.{check_goal_solution-solved}
use rpm_ostree.Core.Relabel.{Relabel, Outcome, RelabelCalls, relabel_if_necessary}
use rpm_ostree.Core.RelabelLaws.{Completed, relabel_if_necessary-Completed}

-- Three packages to import.
abbrev three : Import
three = record {
  total = 3;
  async_index = 0;
  n_async_running = 0;
  n_async_max = 0;
  n_async_pkgs_imported = 0;
  async_running = false;
  async_error = none;
  cancelled = false;
}

three-IsFresh : IsFresh three
three-IsFresh = record {
  none_imported = refl;
  not_running = refl;
  none_running = refl;
  no_error = refl;
}

abbrev creates : ℕ → Option Text
creates i = none

abbrev endings : List (Option Text)
endings = none ∷ none ∷ none ∷ []

import_packages-Runs_example : Runs creates 3 2 (import_packages creates 2 endings three)
import_packages-Runs_example =
    import_packages-Runs creates 2 endings three three-IsFresh (omega arith)

context_import-Completes_example :
    Completes 3 (context_import creates none none none 2 endings three)
context_import-Completes_example =
    context_import-Completes creates none none none 2 endings three three-IsFresh (omega arith)
      (omega arith)

abbrev nano : Package
nano = record { name = codes "nano"; nevra = codes "nano-8.1-1.x86_64" }

abbrev old_vim : Package
old_vim = record { name = codes "vim"; nevra = codes "vim-9.0-1.x86_64" }

abbrev new_vim : Package
new_vim = record { name = codes "vim"; nevra = codes "vim-9.1-1.x86_64" }

-- Remove nano, replace vim.
abbrev answer : Goal
answer = record {
  removals = nano ∷ [];
  reinstalls = [];
  updates = record { pkg = new_vim; old = old_vim ∷ [] } ∷ [];
}

abbrev removed : List Text
removed = codes "nano" ∷ []

abbrev sources : List (Text × List Text)
sources = (codes "repo=fedora", codes "vim" ∷ []) ∷ []

check_goal_solution-solved_example :
    is_solved (check_goal_solution none removed sources answer) ≡ is_expected removed sources answer
check_goal_solution-solved_example = check_goal_solution-solved removed sources answer

abbrev layering : Context
layering = record {
  pkgcache_repo = true;
  sepolicy = true;
  selinux = true;
  documentation = true;
  is_container = false;
}

-- Imported before, under an older policy.
abbrev cached_vim : Candidate
cached_vim = record {
  branch = codes "rpmostree/pkg/vim/9.1-1.x86__64";
  from_cmdline_repo = false;
  is_local = false;
  file_exists = false;
  cached_rev = ok true;
  partial = ok false;
  expected_chksum = ok (1 ∷ []);
  commit_chksum = ok (some (1 ∷ []));
  commit_nodocs = none;
  matching_sepolicy = ok false;
  cancelled = none;
}

-- Not seen before.
abbrev fresh_nano : Candidate
fresh_nano = record cached_vim { cached_rev = ok false }

abbrev lookups : Candidate → Bool × Bool
lookups p = elim p.cached_rev [ ok cached ↦ (cached, false) | error e ↦ (false, false) ]

cached_vim-IsAnswered : IsAnswered layering lookups cached_vim
unfolding find_pkg_in_ostree load_commit compare_repodata found_import chksum_matches is_nodocs
    text_eq
cached_vim-IsAnswered = record { going_on = refl; looked_up = refl; imported = refl }

fresh_nano-IsAnswered : IsAnswered layering lookups fresh_nano
unfolding find_pkg_in_ostree
fresh_nano-IsAnswered = record { going_on = refl; looked_up = refl; imported = refl }

sort_packages-Sorts_example :
    sort_packages layering (cached_vim ∷ fresh_nano ∷ [])
    ≡ arrays
        (filter (needs_download lookups) (cached_vim ∷ fresh_nano ∷ []))
        (filter (needs_import lookups) (cached_vim ∷ fresh_nano ∷ []))
        (filter (needs_relabel lookups) (cached_vim ∷ fresh_nano ∷ []))
sort_packages-Sorts_example =
    sort_packages-Sorts layering lookups (cached_vim ∷ fresh_nano ∷ [])
      (cached_vim-IsAnswered, (fresh_nano-IsAnswered, tt))

find_pkg_in_ostree-reuses_example : (find_pkg_in_ostree layering cached_vim ≡ ok (true, false)) ↔ (
    (layering.pkgcache_repo ≡ true)
    × (cached_vim.cached_rev ≡ ok true)
    × (cached_vim.partial ≡ ok false)
    × ((cached_vim.from_cmdline_repo || has_repodata layering cached_vim) ≡ true)
    × PolicyAnswer layering cached_vim false)
find_pkg_in_ostree-reuses_example = find_pkg_in_ostree-reuses layering cached_vim false

abbrev to_relabel : Relabel
to_relabel = record {
  pkgs_to_relabel = some (cached_vim ∷ fresh_nano ∷ []);
  n_async_pkgs_relabeled = 0;
  async_running = false;
  async_error = none;
  cancelled = false;
  n_changed_files = 0;
  n_changed_pkgs = 0;
}

abbrev calls : RelabelCalls
calls = record { transaction_start = none; mkdtemp = none; commit = none }

-- One package changes, the other does not.
abbrev relabelled : List Outcome
relabelled = ok (codes "a", codes "b") ∷ ok (codes "c", codes "c") ∷ []

relabel_if_necessary-Completed_example :
    Completed none 1 (relabel_if_necessary layering calls relabelled to_relabel)
unfolding text_eq
relabel_if_necessary-Completed_example =
    relabel_if_necessary-Completed layering calls relabelled to_relabel
      (cached_vim ∷ fresh_nano ∷ []) refl (omega arith) (omega arith) refl refl refl refl refl
