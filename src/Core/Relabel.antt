-- ===== src/Core/Relabel.antt =====
-- The relabelling of packages in src/libpriv/rpmostree-core.cxx: relabel_if_necessary,
-- rpmostree_context_force_relabel and their callbacks. How the thread of a package ends is an argument; a
-- failed g_assert is `none`.
use rpm_ostree.Prelude.{
  ℕ, ◌+◌, ◌%◌, ◌^◌, Bool, true, false, not, ◌&&◌, Option, none, some, List, [], ◌∷◌, ◌++◌, length,
  ltb, ◌==◌, if◌then◌else◌, is_some,
}
use rpm_ostree.Prelude.Text.{Text, text_eq, codes}
use rpm_ostree.Prelude.Result.{Result, ok, error, bind}
use rpm_ostree.Core.Packages.{Candidate, Context, find_pkg_in_ostree, add_if}

-- The fields of struct _RpmOstreeContext that the relabelling keeps, with those of its
-- RpmOstreeAsyncRelabelData.
pub record Relabel : Type 0 where
  pub pkgs_to_relabel : Option (List Candidate)
  pub n_async_pkgs_relabeled : ℕ
  pub async_running : Bool
  pub async_error : Option Text
  pub cancelled : Bool
  pub n_changed_files : ℕ
  pub n_changed_pkgs : ℕ

-- How relabel_in_thread_impl ends: the content checksums before and after.
abbrev pub Outcome : Type 0
Outcome = Result (Text × Text)

-- relabel_in_thread, and relabel_package_async_finish where that does not fail
unfoldable pub relabel_in_thread : Outcome → Result ℕ
relabel_in_thread outcome = bind outcome (λ c. ok (if not (text_eq c.0 c.1) then 1 else 0))

-- The error is kept if there is none yet; any cancels the others.
unfoldable pub count_relabeled : Result ℕ → Relabel → Relabel
count_relabeled (error e) s = record s {
  async_error = if is_some s.async_error then s.async_error else some e;
  cancelled = true;
}
count_relabeled (ok n) s =
    if ltb 0 n
    then record s {
      n_changed_files = (s.n_changed_files + n) % 2 ^ 32;
      n_changed_pkgs = (s.n_changed_pkgs + 1) % 2 ^ 32;
    }
    else s

-- The end of on_async_relabel_done.
unfoldable pub advance : ℕ → Relabel → Relabel
advance len s = record s {
  n_async_pkgs_relabeled = s.n_async_pkgs_relabeled + 1;
  async_running = if s.n_async_pkgs_relabeled + 1 == len then false else s.async_running;
}

unfoldable pub on_async_relabel_done : Outcome → Relabel → Option Relabel
on_async_relabel_done outcome s = elim s.pkgs_to_relabel [
  | none ↦ none
  | some pkgs ↦
      if ltb s.n_async_pkgs_relabeled (length pkgs)
      then some (advance (length pkgs) (count_relabeled (relabel_in_thread outcome) s))
      else none
]

-- The main loop, as the threads end one after another.
unfoldable pub wait_relabel : List Outcome → Option Relabel → Option Relabel
wait_relabel outcomes none = none
wait_relabel [] (some s) = some s
wait_relabel (o ∷ outcomes) (some s) =
    let next = wait_relabel outcomes (on_async_relabel_done o s) in
    if s.async_running then next else some s

-- Where relabel_if_necessary stands: it has returned TRUE or an error, or still waits for a thread.
pub data Relabeling : Type 0 where
  returned : Option Text → Relabel → Relabeling
  waiting : Relabel → Relabeling

-- The part behind the loop; `commit` is the error of ostree_repo_commit_transaction.
unfoldable pub end_relabel : Option Text → Option Text → Relabel → Relabeling
end_relabel (some e) commit s =
    returned (some (codes "relabeling: " ++ e)) (record s { async_error = none })
end_relabel none (some e) s = returned (some e) s
end_relabel none none s =
    returned none (record s { pkgs_to_relabel = none; n_async_pkgs_relabeled = 0 })

unfoldable pub finish_relabel : Option Text → Option Relabel → Option Relabeling
finish_relabel commit none = none
finish_relabel commit (some s) =
    if s.async_running then some (waiting s) else some (end_relabel s.async_error commit s)

abbrev pub begin_relabel : Relabel → Relabel
begin_relabel s = record s {
  async_running = true;
  async_error = none;
  n_changed_files = 0;
  n_changed_pkgs = 0;
}

-- The errors of the calls before the loop and of the commit.
pub record RelabelCalls : Type 0 where
  pub transaction_start : Option Text
  pub mkdtemp : Option Text
  pub commit : Option Text

-- What follows the assertions.
abbrev pub run_relabel : RelabelCalls → List Outcome → Relabel → Option Relabeling
run_relabel calls outcomes s = elim calls.transaction_start [
  | some e ↦ some (returned (some e) s)
  | none ↦ elim calls.mkdtemp [
    | some e ↦ some (returned (some e) s)
    | none ↦ finish_relabel calls.commit (wait_relabel outcomes (some (begin_relabel s)))
  ]
]

-- relabel_if_necessary
unfoldable pub relabel_if_necessary :
    Context → RelabelCalls → List Outcome → Relabel → Option Relabeling
relabel_if_necessary ctx calls outcomes s = elim s.pkgs_to_relabel [
  | none ↦ some (returned none s)
  | some pkgs ↦
      if length pkgs == 0
      then some (returned none s)
      else if ctx.sepolicy && ctx.pkgcache_repo
      then run_relabel calls outcomes s
      else none
]

-- The loop of rpmostree_context_force_relabel: its error and the list.
unfoldable pub needing_relabel :
    Context → List Candidate → List Candidate → Option Text × List Candidate
needing_relabel ctx [] found = (none, found)
needing_relabel ctx (p ∷ packages) found = elim p.cancelled [
  | some e ↦ (some e, found)
  | none ↦ elim (find_pkg_in_ostree ctx p) [
    | error e ↦ (some e, found)
    | ok r ↦ needing_relabel ctx packages (add_if (r.0 && not r.1) p found)
  ]
]

abbrev pub relabel_found :
    Context
    → RelabelCalls
    → List Outcome
    → Relabel
    → Option Text × List Candidate
    → Option Relabeling
relabel_found ctx calls outcomes s (some e, found) =
    some (returned (some e) (record s { pkgs_to_relabel = some found }))
relabel_found ctx calls outcomes s (none, found) =
    relabel_if_necessary ctx calls outcomes (record s { pkgs_to_relabel = some found })

-- rpmostree_context_force_relabel, for the packages of the goal
unfoldable pub force_relabel :
    Context → RelabelCalls → List Candidate → List Outcome → Relabel → Option Relabeling
force_relabel ctx calls packages outcomes s =
    relabel_found ctx calls outcomes s (needing_relabel ctx packages [])
