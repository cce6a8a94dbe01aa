-- ===== src/History/Batch.antt =====
-- How the visit of a batch of commits ends: rpmostreed_repo_pull_ancestry of
-- src/daemon/rpmostreed-utils.cxx.
use rpm_ostree.Prelude.{
  ℕ, zero, suc, ◌≡◌, refl, ap, inl, inr, true, false, Option, none, some, List, [], ◌∷◌, ◌++◌,
  length, All, if◌then◌else◌, arith,
}
use rpm_ostree.Prelude.Text.{Text}
use rpm_ostree.Prelude.Result.{Result, ok, error, bind, Result-cases}
use rpm_ostree.History.Pull.{HistoryApi, Visitor, fetch, visit_batch}

-- The checksum of the newest of some commits.
abbrev pub head_of : {Commit : Type 0} → List (Text × Commit) → Option Text
head_of [] = none
head_of ((c, k) ∷ older) = some c

abbrev pub take : {A : Type 0} → ℕ → List A → List A
take zero xs = []
take (suc n) [] = []
take (suc n) (x ∷ xs) = x ∷ take n xs

module _ {R Commit : Type 0} (api : HistoryApi R Commit) where
  -- Each commit names the next as its parent, and the last one none.
  abbrev pub Linked : List (Text × Commit) → Type 0
  Linked [] = Unit
  Linked ((c, k) ∷ older) = (api.get_parent k ≡ head_of older) × Linked older

  -- These commits can be loaded.
  abbrev pub Loads : R → List (Text × Commit) → Type 0
  Loads r commits = All (λ e. api.load_commit r e.0 ≡ ok e.1) commits

  -- The history of a branch, as the repository gives it: the pull of the ref brings the newest commit,
  -- and the pull of a commit with a depth brings that many of its ancestors too.
  pub record Serves (refspec : Text) (remote : Option Text) (ref : Text)
      (history : List (Text × Commit)) : Type 0 where
    pub parses : api.parse_refspec refspec ≡ ok (remote, ref)
    pub linked : Linked history
    pub newest : Text
    pub newest_head : head_of history ≡ some newest
    pub pull_newest :
        (r : R)
        → (r' : R) × (fetch api r remote none ref ≡ ok r')
          × (api.resolve_rev r' refspec ≡ ok newest)
          × Loads r' (take 1 history)
    pub pull_older :
        (r : R) (depth : ℕ) (c : Text) (newer older : List (Text × Commit))
        → newer ++ older ≡ history
        → head_of older ≡ some c
        → (r' : R) × (fetch api r remote (some depth) c ≡ ok r') × Loads r' (take (suc depth) older)

module _ {Commit V : Type 0} (visitor : Visitor Commit V) where
  -- The visits of some commits in order, until the visitor stops or fails.
  abbrev pub visit_all : List (Text × Commit) → V → Result V
  visit_all [] v = ok v
  visit_all ((c, k) ∷ older) v =
      bind (visitor v c k) (λ r. if r.1 then ok r.0 else visit_all older r.0)

  module _ {R : Type 0} (api : HistoryApi R Commit) where
    -- How a batch of at most n of some commits ends.
    pub data Batch (n : ℕ) (r : R) (commits : List (Text × Commit)) (v : V) : Type 0 where
      finished :
          (v' : V)
          → visit_batch api visitor n r (head_of commits) v ≡ ok (none, v')
          → visit_all commits v ≡ ok v'
          → Batch n r commits v
      failed :
          (e : Text)
          → visit_batch api visitor n r (head_of commits) v ≡ error e
          → visit_all commits v ≡ error e
          → Batch n r commits v
      more :
          (v' : V) (c : Text) (newer older : List (Text × Commit))
          → visit_batch api visitor n r (head_of commits) v ≡ ok (some c, v')
          → newer ++ older ≡ commits
          → length newer ≡ n
          → head_of older ≡ some c
          → Linked api older
          → visit_all commits v ≡ visit_all older v'
          → Batch n r commits v

    visit_batch-none : (n : ℕ) (r : R) (v : V) → visit_batch api visitor n r none v ≡ ok (none, v)
    unfolding visit_batch
    visit_batch-none zero r v = refl
    visit_batch-none (suc n) r v = refl

    Batch-step :
        (n : ℕ) (r : R) (c : Text) (k : Commit) (older : List (Text × Commit)) (v v' : V)
        → api.load_commit r c ≡ ok k
        → api.get_parent k ≡ head_of older
        → visitor v c k ≡ ok (v', false)
        → Batch n r older v'
        → Batch (suc n) r ((c, k) ∷ older) v
    unfolding visit_batch
    Batch-step n r c k older v v' l p e (finished w s d) =
        finished w (ground (arith, l, p, e, s)) (ground (arith, e, d))
    Batch-step n r c k older v v' l p e (failed m s d) =
        failed m (ground (arith, l, p, e, s)) (ground (arith, e, d))
    Batch-step n r c k older v v' l p e (more w b newer rest s a h t q d) =
        more w b ((c, k) ∷ newer) rest (ground (arith, l, p, e, s)) (ap (λ xs. (c, k) ∷ xs) a)
          (omega (arith, h)) t q (ground (arith, e, d))

    pub visit_batch-Batch :
        (n : ℕ) (r : R) (commits : List (Text × Commit)) (v : V)
        → Linked api commits
        → Loads api r (take n commits)
        → Batch n r commits v
    unfolding visit_batch
    visit_batch-Batch zero r [] v linked loads = finished v refl refl
    visit_batch-Batch zero r ((c, k) ∷ older) v linked loads =
        more v c [] ((c, k) ∷ older) refl refl refl refl linked refl
    visit_batch-Batch (suc n) r [] v linked loads = finished v refl refl
    visit_batch-Batch (suc n) r ((c, k) ∷ older) v linked loads =
        elim (Result-cases (visitor v c k)) [
          | inr (m, e) ↦ failed m (ground (arith, loads.0, e)) (ground (arith, e))
          | inl ((v', true), e) ↦
              finished v' (ground (arith, loads.0, e, visit_batch-none n r v')) (ground (arith, e))
          | inl ((v', false), e) ↦
              Batch-step n r c k older v v' loads.0 linked.0 e
                (visit_batch-Batch n r older v' linked.1 loads.1)
        ]

    pub fewer-Loads :
        (n : ℕ) (r : R) (commits : List (Text × Commit))
        → Loads api r (take (suc n) commits)
        → Loads api r (take n commits)
    fewer-Loads zero r commits h = tt
    fewer-Loads (suc n) r [] h = tt
    fewer-Loads (suc n) r (e ∷ commits) h = (h.0, fewer-Loads n r commits h.1)
