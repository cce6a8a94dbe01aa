-- ===== src/Core/Import.antt =====
-- The parallel import of packages in src/libpriv/rpmostree-core.cxx: rpmostree_context_import and
-- its callbacks. Whether an importer can be created, and how it ends, are arguments; a failed
-- g_assert is `none`.
use rpm_ostree.Prelude.{
  ℕ, zero, suc, ◌+◌, ◌-◌, Bool, true, false, not, ◌&&◌, Option, none, some, List, [], ◌∷◌, ◌++◌,
  ltb, ◌==◌, if◌then◌else◌, is_some,
}
use rpm_ostree.Prelude.Text.{Text, codes}

-- The fields of struct _RpmOstreeContext that the import keeps; `total` is pkgs_to_import->len.
pub record Import : Type 0 where
  pub total : ℕ
  pub async_index : ℕ
  pub n_async_running : ℕ
  pub n_async_max : ℕ
  pub n_async_pkgs_imported : ℕ
  pub async_running : Bool
  pub async_error : Option Text
  pub cancelled : Bool

-- The condition of the loop in async_imports_mainctx_iter.
unfoldable pub can_start : Import → Bool
can_start s =
    ltb s.async_index s.total && ltb s.n_async_running s.n_async_max && not (is_some s.async_error)

-- The end of async_imports_mainctx_iter.
unfoldable pub settle : Import → Import
settle s = if s.n_async_running == 0 then record s { async_running = false } else s

-- The error of an importer: the first one is kept, and any of them cancels the others.
unfoldable pub record_error : Option Text → Import → Import
record_error none s = s
record_error (some e) s = record s {
  async_error = if is_some s.async_error then s.async_error else some e;
  cancelled = true;
}

-- What rpmostree_context_import sets before the loop, with `cpus` processors.
unfoldable pub begin : ℕ → Import → Import
begin cpus s = record s {
  async_running = true;
  async_index = 0;
  n_async_running = 0;
  n_async_max = cpus;
  async_error = none;
}

-- How rpmostree_context_import stands: it has returned TRUE or an error, or its loop still waits for
-- an importer.
pub data Return : Type 0 where
  returned : Option Text → Import → Return
  waiting : Import → Return

-- The part behind the loop: the error of the loop, if there is one, or that of
-- ostree_repo_commit_transaction.
unfoldable pub import_result : Option Text → Option Text → Import → Return
import_result (some e) commit s =
    returned (some (codes "importing RPMs: " ++ e)) (record s { async_error = none })
import_result none commit s = returned commit s

unfoldable pub finish_import : Option Text → Option Import → Option Return
unfolding import_result
finish_import commit none = none
finish_import commit (some s) =
    if s.async_running then some (waiting s) else some (import_result s.async_error commit s)

-- `create i` is the error of start_async_import_one_package for package i, if it fails.
module _ (create : ℕ → Option Text) where
  -- The loop of async_imports_mainctx_iter, `rounds` times at most.
  unfoldable pub spawn : ℕ → Import → Import
  spawn zero s = s
  spawn (suc rounds) s = elim (can_start s) [
    | false ↦ s
    | true ↦ elim (create s.async_index) [
      | some e ↦ record s { async_error = some e; cancelled = true }
      | none ↦
          spawn rounds
            (record s { async_index = s.async_index + 1; n_async_running = s.n_async_running + 1 })
    ]
  ]

  -- async_imports_mainctx_iter: a round starts a package, so the packages left bound the rounds.
  unfoldable pub mainctx_iter : Import → Import
  unfolding spawn settle
  mainctx_iter s = settle (spawn (s.total - s.async_index) s)

  -- on_async_import_done, for an importer that ended with this error or none.
  unfoldable pub on_async_import_done : Option Text → Import → Option Import
  unfolding record_error mainctx_iter
  on_async_import_done outcome s =
      let s' : Import = record_error outcome s in
      if ltb s'.n_async_pkgs_imported s'.total && ltb 0 s'.n_async_running
      then some (
          mainctx_iter (record s' {
            n_async_pkgs_imported = s'.n_async_pkgs_imported + 1;
            n_async_running = s'.n_async_running - 1;
          }))
      else none

  -- The main loop of rpmostree_context_import: it dispatches while async_running holds.
  unfoldable pub iterate : List (Option Text) → Option Import → Option Import
  iterate outcomes none = none
  iterate [] (some s) = some s
  iterate (o ∷ outcomes) (some s) =
      let next = iterate outcomes (on_async_import_done o s) in
      if s.async_running then next else some s

  -- rpmostree_context_import from the start of its loop to the end, as the importers end one after
  -- another.
  unfoldable pub import_packages : ℕ → List (Option Text) → Import → Option Import
  unfolding iterate mainctx_iter begin
  import_packages cpus outcomes s = iterate outcomes (some (mainctx_iter (begin cpus s)))

  -- rpmostree_context_import: the errors of dnf_transaction_import_keys, of the start of the
  -- repository transaction and of its commit are `keys`, `start` and `commit`.
  unfoldable pub context_import :
      Option Text → Option Text → Option Text → ℕ → List (Option Text) → Import → Option Return
  unfolding import_packages finish_import
  context_import keys start commit cpus outcomes s =
      if s.total == 0 then some (returned none s) else elim keys [
        | some e ↦ some (returned (some e) s)
        | none ↦ elim start [
          | some e ↦ some (returned (some e) s)
          | none ↦ finish_import commit (import_packages cpus outcomes s)
        ]
      ]
