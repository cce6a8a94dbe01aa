-- ===== src/History/Pull.antt =====
-- rpmostreed_repo_pull_ancestry of src/daemon/rpmostreed-utils.cxx. The functions of libostree are
-- parameters, over the state of the repository.
use rpm_ostree.Prelude.{
  ℕ, zero, suc, ◌*◌, ◌%◌, ◌^◌, Bool, true, false, Option, none, some, if◌then◌else◌, ltb,
}
use rpm_ostree.Prelude.Text.{Text}
use rpm_ostree.Prelude.Result.{Result, ok, error, bind}

-- The functions of libostree, for a type R of repository states and a type of commits. The depth of a
-- pull is the bits of a C int.
pub record HistoryApi (R Commit : Type 0) : Type 0 where
  pub parse_refspec : Text → Result (Option Text × Text)
  pub pull_with_options : R → Text → Option ℕ → Text → Result R
  pub resolve_rev : R → Text → Result Text
  pub load_commit : R → Text → Result Commit
  pub get_parent : Commit → Option Text
  pub get_version : Commit → Option Text

-- RpmostreedCommitVisitor: the user data after the visit, and whether to stop.
abbrev pub Visitor : Type 0 → Type 0 → Type 0
Visitor Commit V = V → Text → Commit → Result (V × Bool)

-- The number of iterations that `ii < depth` admits.
unfoldable pub iterations : ℕ → ℕ
iterations depth = if ltb depth (2 ^ 31) then depth else 0

-- depth * 2
unfoldable pub doubled : ℕ → ℕ
doubled depth = depth * 2 % 2 ^ 32

-- The depth at the start: -1 without a visitor.
unfoldable pub first_depth : {A : Type 0} → Option A → ℕ
first_depth none = 4294967295
first_depth (some visitor) = 10

abbrev pub pass_depth : Bool → ℕ → Option ℕ
pass_depth first_pass depth = if first_pass then none else some depth

abbrev pub batch_size : Bool → ℕ → ℕ
batch_size first_pass depth = if first_pass then 1 else iterations depth

abbrev pub next_depth : Bool → ℕ → ℕ
next_depth first_pass depth = if first_pass then depth else doubled depth

module _ {R Commit : Type 0} (api : HistoryApi R Commit) where
  -- The pull of a pass, which a branch without a remote does not need.
  unfoldable pub fetch : R → Option Text → Option ℕ → Text → Result R
  fetch r none depth ref = ok r
  fetch r (some remote) depth ref = api.pull_with_options r remote depth ref

  abbrev pub resolved : R → Text → Option Text → Result Text
  resolved r refspec none = api.resolve_rev r refspec
  resolved r refspec (some checksum) = ok checksum

  abbrev pub next_checksum : Bool → Commit → Option Text
  next_checksum stop commit = if stop then none else api.get_parent commit

module _ {R Commit V : Type 0} (api : HistoryApi R Commit) where
  -- The loop over a batch: the checksum it ends with, and the user data.
  unfoldable pub visit_batch : Visitor Commit V → ℕ → R → Option Text → V → Result (Option Text × V)
  visit_batch visitor zero r checksum user_data = ok (checksum, user_data)
  visit_batch visitor (suc n) r none user_data = ok (none, user_data)
  visit_batch visitor (suc n) r (some checksum) user_data =
      bind (api.load_commit r checksum) (λ commit.
        bind (visitor user_data checksum commit)
          (λ v. visit_batch visitor n r (next_checksum api v.1 commit) v.0))

  -- What follows the pull of a pass; without a visitor the loop ends.
  unfoldable pub visit : Option (Visitor Commit V) → ℕ → R → Text → V → Result (R × Option Text × V)
  visit none n r checksum user_data = ok (r, none, user_data)
  visit (some visitor) n r checksum user_data =
      bind (visit_batch visitor n r (some checksum) user_data) (λ v. ok (r, v.0, v.1))

  -- One pass of the loop.
  unfoldable pub pull_pass :
      Option (Visitor Commit V)
      → Text
      → Option Text
      → R
      → Bool
      → ℕ
      → Text
      → Option Text
      → V
      → Result (R × Option Text × V)
  pull_pass visitor refspec remote r first_pass depth ref checksum user_data =
      bind (fetch api r remote (pass_depth first_pass depth) ref) (λ pulled.
        bind (resolved api pulled refspec checksum)
          (λ rev. visit visitor (batch_size first_pass depth) pulled rev user_data))

  -- The loop, on fuel: `none` if the fuel does not suffice.
  unfoldable pub pull_loop :
      Option (Visitor Commit V)
      → Text
      → Option Text
      → ℕ
      → R
      → Bool
      → ℕ
      → Text
      → Option Text
      → V
      → Option (Result (R × V))
  pull_loop visitor refspec remote zero r first_pass depth ref checksum user_data = none
  pull_loop visitor refspec remote (suc fuel) r first_pass depth ref checksum user_data =
      elim (pull_pass visitor refspec remote r first_pass depth ref checksum user_data) [
        | error e ↦ some (error e)
        | ok (pulled, none, seen) ↦ some (ok (pulled, seen))
        | ok (pulled, some parent, seen) ↦
            pull_loop visitor refspec remote fuel pulled false (next_depth first_pass depth) parent
              (some parent) seen
      ]

  -- rpmostreed_repo_pull_ancestry
  unfoldable pub pull_ancestry :
      Option (Visitor Commit V) → ℕ → R → Text → V → Option (Result (R × V))
  pull_ancestry visitor fuel r refspec user_data = elim (api.parse_refspec refspec) [
    | error e ↦ some (error e)
    | ok (remote, ref) ↦
        pull_loop visitor refspec remote fuel r true (first_depth visitor) ref none user_data
  ]
