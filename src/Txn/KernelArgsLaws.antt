-- ===== src/Txn/KernelArgsLaws.antt =====
-- What a change of the kernel arguments deploys, and when it does nothing.
use rpm_ostree.Prelude.{
  ◌∙◌, ◌≡◌, refl, sym, ap, Bool, true, false, not, ◌&&◌, inl, inr, none, some, List, [], ◌∷◌, ◌++◌,
  arith, if◌then◌else◌, Bool-cases,
}
use rpm_ostree.Prelude.Text.{Text}
use rpm_ostree.Prelude.Result.{Result, Result-cases, ok, error}
use rpm_ostree.Txn.Effects.{vardict_lookup_bool, Effect, set_kargs, deploy, reboot}
use rpm_ostree.Txn.Initramfs.{contains, add_files}
use rpm_ostree.Txn.KernelArgs.{
  KargsApi, Appends, KargsEnv, apply, edit_all, append_missing, delete_present, patch,
  apply_patching, kernel_arg_execute,
}

-- Every argument of `args` is in the list.
abbrev pub has_all : List Text → List Text → Bool
has_all [] kargs = true
has_all (arg ∷ args) kargs = contains arg kargs && has_all args kargs

module _ {K : Type 0} (api : KargsApi K) (law : Appends api) where
  append_missing-to_strv :
      (args : List Text) (kargs : K) (changed : Bool)
      → api.to_strv (append_missing api args (kargs, changed)).0
        ≡ add_files args (api.to_strv kargs)
  unfolding append_missing add_files
  append_missing-to_strv [] kargs changed = refl
  append_missing-to_strv (arg ∷ args) kargs changed =
      elim (Bool-cases (contains arg (api.to_strv kargs))) [
        | inl e ↦ ground (arith, e, append_missing-to_strv args kargs changed)
        | inr e ↦ ground (
          arith,
          e,
          append_missing-to_strv args (api.append kargs arg) true,
          law.to_strv-append kargs arg,
        )
      ]

  append_missing-set :
      (args : List Text) (kargs : K) → (append_missing api args (kargs, true)).1 ≡ true
  unfolding append_missing
  append_missing-set [] kargs = refl
  append_missing-set (arg ∷ args) kargs =
      ground (arith, append_missing-set args kargs, append_missing-set args (api.append kargs arg))

  append_missing-changed :
      (args : List Text) (kargs : K)
      → (append_missing api args (kargs, false)).1 ≡ not (has_all args (api.to_strv kargs))
  unfolding append_missing
  append_missing-changed [] kargs = refl
  append_missing-changed (arg ∷ args) kargs =
      ground
        (arith, append_missing-changed args kargs, append_missing-set args (api.append kargs arg))

-- A request to append what is missing, and no other change.
pub record AppendsOnly (env : KargsEnv) (args : List Text) : Type 0 where
  pub appends : env.append_if_missing ≡ some args
  pub adds_none : env.kernel_args_added ≡ none
  pub replaces_none : env.kernel_args_replaced ≡ none
  pub deletes_none : env.kernel_args_deleted ≡ none
  pub deletes_none_present : env.delete_if_present ≡ none
  pub no_final : env.final_kernel_args ≡ none

-- What the end of a transaction adds to the effects `es`: a reboot, if it is asked for and the inhibitor
-- locks allow it.
abbrev pub rebooted : Bool → Result (Unit {0}) → List Effect → Result (Unit {0}) × List Effect
rebooted false locks es = (ok tt, es)
rebooted true (ok u) es = (ok tt, es ++ reboot ∷ [])
rebooted true (error e) es = (error e, es)

abbrev pub deployed_with :
    Result (Unit {0}) → Bool → Result (Unit {0}) → List Text → Result (Unit {0}) × List Effect
deployed_with (error e) wanted locks kargs = (error e, set_kargs kargs ∷ [])
deployed_with (ok u) wanted locks kargs = rebooted wanted locks (set_kargs kargs ∷ deploy ∷ [])

-- What such a request does to a machine with the arguments `kargs`.
abbrev pub appended :
    KargsEnv → Result (Unit {0}) → List Text → List Text → Result (Unit {0}) × List Effect
appended env (error e) args kargs = (error e, [])
appended env (ok u) args kargs =
    if has_all args kargs
    then (ok tt, [])
    else deployed_with env.upgrader_deploy (vardict_lookup_bool env.want_reboot false)
        env.inhibitor_locks (add_files args kargs)

module _ {K : Type 0} (api : KargsApi K) (law : Appends api) where
  patch-AppendsOnly :
      (env : KargsEnv) (args : List Text) (kargs : K)
      → AppendsOnly env args
      → patch api env kargs ≡ ok (append_missing api args (kargs, false))
  unfolding patch edit_all delete_present
  patch-AppendsOnly env args kargs v = ground (arith, v)

  kernel_arg_execute-apply :
      (env : KargsEnv) (args : List Text)
      → AppendsOnly env args
      → env.upgrader_new ≡ ok tt
      → kernel_arg_execute api env [] ≡ (
          let s : K × Bool =
            append_missing api args (api.from_string env.existing_kernel_args, false) in
          apply api env s.0 s.1 [])
  unfolding kernel_arg_execute apply_patching patch apply
  kernel_arg_execute-apply env args v new =
      rw (new, v.no_final, patch-AppendsOnly env args (api.from_string env.existing_kernel_args) v)

  apply-deploys :
      (env : KargsEnv) (kargs : K)
      → apply api env kargs true []
        ≡ deployed_with env.upgrader_deploy
            (vardict_lookup_bool env.want_reboot false)
            env.inhibitor_locks
            (api.to_strv kargs)
  unfolding apply
  apply-deploys env kargs = ground arith

  apply-appends :
      (env : KargsEnv) (args : List Text) (s : K × Bool) (before : List Text)
      → api.to_strv s.0 ≡ add_files args before
      → s.1 ≡ not (has_all args before)
      → apply api env s.0 s.1 [] ≡ appended env (ok tt) args before
  unfolding apply
  apply-appends env args s before e c = elim (Bool-cases (has_all args before)) [
    | inl h ↦ rw (c, h)
    | inr h ↦
        let changes : s.1 ≡ true = ground (arith, c, h) in
        rw h (
          ap (λ b. apply api env s.0 b []) changes
          ∙ apply-deploys env s.0
          ∙ ap
              (deployed_with env.upgrader_deploy (vardict_lookup_bool env.want_reboot false)
                env.inhibitor_locks)
              e)
  ]

  -- Where an argument that libostree appends is listed last: a request that only appends missing
  -- arguments does nothing when all are there. Otherwise it deploys the arguments of before, followed by
  -- each missing one, once; it then reboots, if that is asked for and the inhibitor locks allow it. A call
  -- that fails ends it with that error, and what was done before is all that was done.
  pub kernel_arg_execute-appends :
      (env : KargsEnv) (args : List Text)
      → AppendsOnly env args
      → kernel_arg_execute api env []
        ≡ appended env env.upgrader_new args
            (api.to_strv (api.from_string env.existing_kernel_args))
  unfolding kernel_arg_execute
  kernel_arg_execute-appends env args v = elim (Result-cases env.upgrader_new) [
    | inl (u, new) ↦
        let kargs : K = api.from_string env.existing_kernel_args in
        kernel_arg_execute-apply env args v new
        ∙ apply-appends env args (append_missing api args (kargs, false)) (api.to_strv kargs)
            (append_missing-to_strv api law args kargs false)
            (append_missing-changed api law args kargs)
        ∙ ap (λ r. appended env r args (api.to_strv kargs)) (sym new)
    | inr (e, new) ↦ rw new refl
  ]
