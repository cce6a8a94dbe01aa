-- ===== src/History/PullLaws.antt =====
-- That the pull of the history visits it from the newest commit, until the visitor stops.
use rpm_ostree.Prelude.{
  ℕ, zero, suc, ◌+◌, ◌*◌, ◌^◌, ◌≤◌, ◌<◌, ◌≡◌, sym, ap, ◌∙◌, Bool, true, false, subst, Option, none,
  some, List, ◌++◌, length, length-append, append_assoc, arith,
}
use rpm_ostree.Prelude.Text.{Text}
use rpm_ostree.Prelude.Result.{Result, ok, error, bind}
use rpm_ostree.History.Batch.{
  head_of, Linked, Serves, visit_all, finished, failed, more, visit_batch-Batch, fewer-Loads,
}
use rpm_ostree.History.Pull.{
  HistoryApi, Visitor, iterations, doubled, first_depth, next_depth, fetch, visit_batch, visit,
  pull_pass, pull_loop, pull_ancestry,
}

-- The answer, without the repository.
abbrev pub user_data_of : {R V : Type 0} → Option (Result (R × V)) → Option (Result V)
user_data_of none = none
user_data_of (some (error e)) = some (error e)
user_data_of (some (ok (r, v))) = some (ok v)

iterations-small : (depth : ℕ) → depth < 2 ^ 31 → iterations depth ≡ depth
unfolding iterations
iterations-small depth b = ground arith

doubled-small : (depth : ℕ) → depth < 2 ^ 31 → doubled depth ≡ depth * 2
unfolding doubled
doubled-small depth b = omega arith

module _ {Commit V : Type 0} (visitor : Visitor Commit V) where
  module _ {R : Type 0} (api : HistoryApi R Commit) where
    -- What follows a pass.
    abbrev after_pass :
        Text → Option Text → ℕ → ℕ → Result (R × Option Text × V) → Option (Result V)
    after_pass refspec remote fuel depth (error e) = some (error e)
    after_pass refspec remote fuel depth (ok (r, none, v)) = some (ok v)
    after_pass refspec remote fuel depth (ok (r, some c, v)) =
        user_data_of (pull_loop api (some visitor) refspec remote fuel r false depth c (some c) v)

    pull_loop-after_pass :
        (refspec : Text) (remote : Option Text) (fuel : ℕ) (r : R) (first : Bool) (depth : ℕ)
        (ref : Text) (c : Option Text) (v : V) (pass : Result (R × Option Text × V))
        → pull_pass api (some visitor) refspec remote r first depth ref c v ≡ pass
        → user_data_of
            (pull_loop api (some visitor) refspec remote (suc fuel) r first depth ref c v)
          ≡ after_pass refspec remote fuel (next_depth first depth) pass
    unfolding pull_loop
    pull_loop-after_pass refspec remote fuel r first depth ref c v (error m) e =
        rw (user_data_of, e)
    pull_loop-after_pass refspec remote fuel r first depth ref c v (ok (r', none, v')) e =
        rw (user_data_of, e)
    pull_loop-after_pass refspec remote fuel r first depth ref c v (ok (r', some c', v')) e =
        rw (user_data_of, e)

    pull_pass-older :
        (refspec : Text) (remote : Option Text) (r r' : R) (depth : ℕ) (c : Text) (v : V)
        (batch : Result (Option Text × V))
        → fetch api r remote (some depth) c ≡ ok r'
        → depth < 2 ^ 31
        → visit_batch api visitor depth r' (some c) v ≡ batch
        → pull_pass api (some visitor) refspec remote r false depth c (some c) v
          ≡ bind batch (λ w. ok (r', w.0, w.1))
    unfolding pull_pass visit
    pull_pass-older refspec remote r r' depth c v batch e b h = rw (e, iterations-small depth b, h)

    pull_pass-newest :
        (refspec : Text) (remote : Option Text) (r r' : R) (ref c : Text) (v : V)
        (batch : Result (Option Text × V))
        → fetch api r remote none ref ≡ ok r'
        → api.resolve_rev r' refspec ≡ ok c
        → visit_batch api visitor 1 r' (some c) v ≡ batch
        → pull_pass api (some visitor) refspec remote r true 10 ref none v
          ≡ bind batch (λ w. ok (r', w.0, w.1))
    unfolding pull_pass visit
    pull_pass-newest refspec remote r r' ref c v batch e b h = rw (e, b, h)

    module _ {refspec : Text} {remote : Option Text} {ref : Text} {history : List (Text × Commit)}
        (serves : Serves api refspec remote ref history) (short : length history < 2 ^ 28) where
      pull_loop-visits :
          (fuel depth : ℕ) (r : R) (c : Text) (newer older : List (Text × Commit)) (v : V)
          → newer ++ older ≡ history
          → head_of older ≡ some c
          → Linked api older
          → length older < fuel
          → 1 ≤ depth
          → depth ≤ length newer + 10
          → user_data_of
              (pull_loop api (some visitor) refspec remote fuel r false depth c (some c) v)
            ≡ some (visit_all visitor older v)
      pull_loop-visits zero depth r c newer older v a h linked f d b = absurd (omega (arith, f))
      pull_loop-visits (suc fuel) depth r c newer older v a h linked f d b =
          let (r', e, loads) = serves.pull_older r depth c newer older a h in
          let small : depth < 2 ^ 31 =
            omega (arith, b, short, length-append newer older, ap length a) in
          elim (visit_batch-Batch visitor api depth r' older v linked
            (fewer-Loads visitor api depth r' older loads)) [
              | finished v' s t ↦
                  pull_loop-after_pass refspec remote fuel r false depth c (some c) v
                    (ok (r', none, v'))
                    (pull_pass-older refspec remote r r' depth c v (ok (none, v')) e small
                      (subst (λ x. visit_batch api visitor depth r' x v ≡ ok (none, v')) h s))
                  ∙ ap some (sym t)
              | failed m s t ↦
                  pull_loop-after_pass refspec remote fuel r false depth c (some c) v (error m) (
                    pull_pass-older refspec remote r r' depth c v (error m) e small
                      (subst (λ x. visit_batch api visitor depth r' x v ≡ error m) h s))
                  ∙ ap some (sym t)
              | more v' c' newer' older' s a' h' t l q ↦
                  pull_loop-after_pass refspec remote fuel r false depth c (some c) v
                    (ok (r', some c', v'))
                    (pull_pass-older refspec remote r r' depth c v (ok (some c', v')) e small
                      (subst (λ x. visit_batch api visitor depth r' x v ≡ ok (some c', v')) h s))
                  ∙ pull_loop-visits fuel (doubled depth) r' c' (newer ++ newer') older' v'
                      (append_assoc newer newer' older' ∙ ap (λ xs. newer ++ xs) a' ∙ a) t l
                      (omega (arith, f, d, h', length-append newer' older', ap length a'))
                      (omega (arith, doubled-small depth small, d))
                      (omega (arith, doubled-small depth small, b, h', length-append newer newer'))
                  ∙ ap some (sym q)
            ]

      parsed-pull_ancestry :
          (fuel : ℕ) (r : R) (v : V)
          → user_data_of (pull_ancestry api (some visitor) fuel r refspec v)
            ≡ user_data_of (pull_loop api (some visitor) refspec remote fuel r true 10 ref none v)
      unfolding pull_ancestry first_depth
      parsed-pull_ancestry fuel r v = rw (user_data_of, serves.parses)

      -- When the repository serves the history, which has fewer than 2^28 commits, and the fuel exceeds
      -- their number by two, the pull succeeds or fails as the visits of the history in order, from the
      -- newest commit, until the visitor stops or fails.
      pub pull_ancestry-visits :
          (fuel : ℕ) (r : R) (v : V)
          → length history + 1 < fuel
          → user_data_of (pull_ancestry api (some visitor) fuel r refspec v)
            ≡ some (visit_all visitor history v)
      pull_ancestry-visits zero r v f = absurd (omega (arith, f))
      pull_ancestry-visits (suc fuel) r v f =
          let (r', e, resolves, loads) = serves.pull_newest r in
          let pass = pull_pass-newest refspec remote r r' ref serves.newest v in
          parsed-pull_ancestry (suc fuel) r v
          ∙ elim (visit_batch-Batch visitor api 1 r' history v serves.linked loads) [
            | finished v' s t ↦
                pull_loop-after_pass refspec remote fuel r true 10 ref none v (ok (r', none, v')) (
                  pass (ok (none, v')) e resolves (
                    subst (λ x. visit_batch api visitor 1 r' x v ≡ ok (none, v')) serves.newest_head
                      s))
                ∙ ap some (sym t)
            | failed m s t ↦
                pull_loop-after_pass refspec remote fuel r true 10 ref none v (error m) (
                  pass (error m) e resolves
                    (subst (λ x. visit_batch api visitor 1 r' x v ≡ error m) serves.newest_head s))
                ∙ ap some (sym t)
            | more v' c' newer' older' s a' h' t l q ↦
                pull_loop-after_pass refspec remote fuel r true 10 ref none v (ok (r', some c', v'))
                  (pass (ok (some c', v')) e resolves (
                    subst (λ x. visit_batch api visitor 1 r' x v ≡ ok (some c', v'))
                      serves.newest_head s))
                ∙ pull_loop-visits fuel 10 r' c' newer' older' v' a' t l
                    (omega (arith, f, h', length-append newer' older', ap length a')) (omega arith)
                    (omega (arith, h'))
                ∙ ap some (sym q)
          ]
