-- ===== src/Txn/ModifyRepo.antt =====
-- modify_yum_repo_transaction_execute of src/daemon/rpmostreed-transaction-types.cxx.
use rpm_ostree.Prelude.{
  ◌≡◌, refl, sym, ap, ◌∙◌, subst, inl, inr, Bool, true, false, not, ◌&&◌, ◌||◌, List, [], ◌∷◌, ◌++◌,
  arith, if◌then◌else◌, All, All-append, Bool-cases, any, append-nil, append_assoc,
}
use rpm_ostree.Prelude.Text.{Text, text_eq, codes}
use rpm_ostree.Prelude.Result.{
  Result, Result-cases, ok, error, Action, pure, call, attempt, continue, throw_if, ◌>>◌,
}

pub data RepoStep : Type 0 where
  repo_set_data : Text → Text → RepoStep
  repo_commit : RepoStep

abbrev pub is_commit : RepoStep → Bool
is_commit repo_commit = true
is_commit (repo_set_data parameter value) = false

-- Whether the repository is found, and how the calls of libdnf end.
pub record RepoEnv : Type 0 where
  pub repo_id : Text
  pub setup : Result (Unit {0})
  pub found : Bool
  pub set_data : Text → Text → Result (Unit {0})
  pub commit : Result (Unit {0})

abbrev pub is_allowed : Text → Text → Bool
is_allowed parameter value =
    text_eq parameter (codes "enabled") && (text_eq value (codes "0") || text_eq value (codes "1"))

-- Why a setting is refused.
abbrev pub refusal : Text → Text
refusal parameter =
    if not (text_eq parameter (codes "enabled"))
    then codes "Changing '" ++ parameter ++ codes "' not allowed in yum .repo files"
    else codes "Only '0' and '1' are allowed for the '" ++ parameter ++ codes "' key"

-- The loop over the settings.
unfoldable pub set_all : RepoEnv → List (Text × Text) → Action RepoStep (Unit {0})
set_all env [] = pure tt
set_all env ((parameter, value) ∷ settings) =
    throw_if (not (is_allowed parameter value)) (refusal parameter)
    >> attempt (repo_set_data parameter value) (env.set_data parameter value)
    >> set_all env settings

-- modify_yum_repo_transaction_execute
unfoldable pub modify_repo_execute : RepoEnv → List (Text × Text) → Action RepoStep (Unit {0})
modify_repo_execute env settings =
    call env.setup
    >> throw_if (not env.found) (codes "Yum repo '" ++ env.repo_id ++ codes "' not found")
    >> set_all env settings
    >> attempt repo_commit env.commit

-- A repository is changed only by enabling or disabling it.
abbrev pub OnlyEnables : RepoStep → Type 0
OnlyEnables (repo_set_data parameter value) = is_allowed parameter value ≡ true
OnlyEnables repo_commit = Unit {0}

-- The settings, one by one.
abbrev pub sets : List (Text × Text) → List RepoStep
sets [] = []
sets ((parameter, value) ∷ settings) = repo_set_data parameter value ∷ sets settings

-- The settings are all made, and then committed; or the run fails and commits none of them.
abbrev pub CommitsAll : List (Text × Text) → Result (Unit {0}) × List RepoStep → Type 0
CommitsAll settings (ok u, steps) = steps ≡ sets settings ++ repo_commit ∷ []
CommitsAll settings (error m, steps) = any is_commit steps ≡ false

set_all-OnlyEnables :
    (env : RepoEnv) (settings : List (Text × Text)) (log : List RepoStep)
    → All OnlyEnables log
    → All OnlyEnables (set_all env settings log).1
unfolding set_all
set_all-OnlyEnables env [] log h = h
set_all-OnlyEnables env ((parameter, value) ∷ settings) log h =
    elim (Bool-cases (is_allowed parameter value)) [
      | inr e ↦ rw (e) h
      | inl e ↦ elim (Result-cases (env.set_data parameter value)) [
        | inr (m, r) ↦ rw (e, r) h
        | inl (u, r) ↦
            rw (e, r)
              (set_all-OnlyEnables env settings (log ++ repo_set_data parameter value ∷ [])
                (All-append OnlyEnables log (repo_set_data parameter value ∷ []) h (e, tt)))
      ]
    ]

any-append :
    (xs ys : List RepoStep) → any is_commit (xs ++ ys) ≡ (any is_commit xs || any is_commit ys)
any-append [] ys = refl
any-append (x ∷ xs) ys = ground (arith, any-append xs ys)

-- The loop makes all settings, or fails, and never commits.
abbrev SetsAll : List RepoStep → Result (Unit {0}) × List RepoStep → Type 0
SetsAll wanted (ok u, steps) = (steps ≡ wanted) × (any is_commit steps ≡ false)
SetsAll wanted (error m, steps) = any is_commit steps ≡ false

set_all-SetsAll :
    (env : RepoEnv) (settings : List (Text × Text)) (log : List RepoStep)
    → any is_commit log ≡ false
    → SetsAll (log ++ sets settings) (set_all env settings log)
unfolding set_all
set_all-SetsAll env [] log h = (sym (append-nil log), h)
set_all-SetsAll env ((parameter, value) ∷ settings) log h =
    elim (Bool-cases (is_allowed parameter value)) [
      | inr e ↦ rw (e) h
      | inl e ↦ elim (Result-cases (env.set_data parameter value)) [
        | inr (m, r) ↦ rw (e, r) h
        | inl (u, r) ↦
            rw (e, r)
              (subst
                (λ wanted.
                  SetsAll wanted (set_all env settings (log ++ repo_set_data parameter value ∷ [])))
                (append_assoc log (repo_set_data parameter value ∷ []) (sets settings))
                (set_all-SetsAll env settings (log ++ repo_set_data parameter value ∷ [])
                  (any-append log (repo_set_data parameter value ∷ []) ∙ ap (λ b. b || false) h)))
      ]
    ]

commit_after :
    (settings : List (Text × Text)) (commit : Result (Unit {0}))
    (r : Result (Unit {0}) × List RepoStep)
    → SetsAll (sets settings) r
    → CommitsAll settings (continue (λ _. attempt repo_commit commit) r)
commit_after settings (ok u) (ok v, steps) h = ap (λ l. l ++ repo_commit ∷ []) h.0
commit_after settings (error m) (ok v, steps) h = h.1
commit_after settings commit (error m, steps) h = h

enables_after :
    (commit : Result (Unit {0})) (r : Result (Unit {0}) × List RepoStep)
    → All OnlyEnables r.1
    → All OnlyEnables (continue (λ _. attempt repo_commit commit) r).1
enables_after (ok u) (ok v, steps) h = All-append OnlyEnables steps (repo_commit ∷ []) h (tt, tt)
enables_after (error m) (ok v, steps) h = h
enables_after commit (error m, steps) h = h

-- Whatever calls fail on the way, a repository is changed only by enabling or disabling it, and its file
-- is committed only with all the settings of the request, in their order.
pub modify_repo_execute-CommitsAll :
    (env : RepoEnv) (settings : List (Text × Text))
    → All OnlyEnables (modify_repo_execute env settings []).1
      × CommitsAll settings (modify_repo_execute env settings [])
unfolding modify_repo_execute
modify_repo_execute-CommitsAll env settings = elim (Result-cases env.setup) [
  | inr (m, e) ↦ rw (e) (tt, refl)
  | inl (u, e) ↦ elim (Bool-cases env.found) [
    | inr f ↦ rw (e, f) (tt, refl)
    | inl f ↦
        rw (e, f)
          (
            enables_after env.commit (set_all env settings [])
                (set_all-OnlyEnables env settings [] tt),
            commit_after settings env.commit (set_all env settings [])
                (set_all-SetsAll env settings [] refl),
          )
  ]
]
