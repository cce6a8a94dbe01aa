-- ===== src/Txn/KernelArgs.antt =====
-- kernel_arg_transaction_execute of src/daemon/rpmostreed-transaction-types.cxx, over libostree's kernel
-- arguments.
use rpm_ostree.Prelude.{
  ◌≡◌, Bool, true, false, not, Option, none, some, List, [], ◌∷◌, ◌++◌, if◌then◌else◌,
}
use rpm_ostree.Prelude.Text.{Text, text_eq}
use rpm_ostree.Prelude.Result.{Result, ok, bind, Action, pure, call, perform, attempt, ◌>>=◌, ◌>>◌}
use rpm_ostree.Txn.Effects.{Effect, set_kargs, deploy, reboot_if, vardict_lookup_bool}
use rpm_ostree.Txn.Initramfs.{contains}

-- OstreeKernelArgs of libostree, as far as the transaction calls it.
pub record KargsApi (K : Type 0) : Type 0 where
  pub from_string : Text → K
  pub to_strv : K → List Text
  pub delete : K → Text → Result K
  pub new_replace : K → Text → Result K
  pub append : K → Text → K
  pub append_argv : K → List Text → K

-- ostree_kernel_args_append adds its argument to those that ostree_kernel_args_to_strv lists.
pub record Appends {K : Type 0} (api : KargsApi K) : Type 0 where
  pub to_strv-append : (k : K) (a : Text) → api.to_strv (api.append k a) ≡ api.to_strv k ++ a ∷ []

-- The fields and options of the transaction, and how the upgrader's calls end. A list that is missing
-- is NULL.
pub record KargsEnv : Type 0 where
  pub existing_kernel_args : Text
  pub kernel_args_added : Option (List Text)
  pub kernel_args_replaced : Option (List Text)
  pub kernel_args_deleted : Option (List Text)
  pub append_if_missing : Option (List Text)
  pub delete_if_present : Option (List Text)
  pub final_kernel_args : Option Text
  pub want_reboot : Option Bool
  pub upgrader_new : Result (Unit {0})
  pub upgrader_deploy : Result (Unit {0})
  pub inhibitor_locks : Result (Unit {0})

-- A loop `for (iter = list; iter && *iter; iter++)` ends at once on NULL.
abbrev pub or_empty : Option (List Text) → List Text
or_empty none = []
or_empty (some xs) = xs

module _ {K : Type 0} (api : KargsApi K) where
  -- kernel_arg_apply
  unfoldable pub apply : KargsEnv → K → Bool → Action Effect (Unit {0})
  apply env kargs false = pure tt
  apply env kargs true =
      perform (set_kargs (api.to_strv kargs))
      >> (attempt deploy env.upgrader_deploy
          >> reboot_if (vardict_lookup_bool env.want_reboot false) env.inhibitor_locks)

  -- The loops over kernel_args_deleted and kernel_args_replaced, for `edit` the call in the loop.
  unfoldable pub edit_all : (K → Text → Result K) → List Text → K × Bool → Result (K × Bool)
  edit_all edit [] state = ok state
  edit_all edit (arg ∷ args) (kargs, changed) =
      bind (edit kargs arg) (λ new. edit_all edit args (new, true))

  abbrev pub append_added : Option (List Text) → K × Bool → K × Bool
  append_added none state = state
  append_added (some args) (kargs, changed) = (api.append_argv kargs args, true)

  abbrev pub append_unless : Text → K × Bool → K × Bool
  append_unless arg (kargs, changed) =
      if not (contains arg (api.to_strv kargs))
      then (api.append kargs arg, true)
      else (kargs, changed)

  -- The loop over append_if_missing.
  unfoldable pub append_missing : List Text → K × Bool → K × Bool
  append_missing [] state = state
  append_missing (arg ∷ args) state = append_missing args (append_unless arg state)

  -- The loop over delete_if_present, with the arguments at the start.
  unfoldable pub delete_present : List Text → List Text → K × Bool → Result (K × Bool)
  delete_present existing [] state = ok state
  delete_present existing (arg ∷ args) (kargs, changed) =
      let skipped = delete_present existing args (kargs, changed) in
      if contains arg existing
      then bind (api.delete kargs arg) (λ new. delete_present existing args (new, true))
      else skipped

  -- kernel_arg_apply_patching up to its call of kernel_arg_apply
  unfoldable pub patch : KargsEnv → K → Result (K × Bool)
  patch env kargs =
      bind (edit_all api.delete (or_empty env.kernel_args_deleted) (kargs, false)) (λ deleted.
        bind (edit_all api.new_replace (or_empty env.kernel_args_replaced) deleted) (λ replaced.
          delete_present (api.to_strv (api.from_string env.existing_kernel_args))
            (or_empty env.delete_if_present)
            (append_missing (or_empty env.append_if_missing)
              (append_added env.kernel_args_added replaced))))

  -- kernel_arg_apply_final_str
  unfoldable pub apply_final_str : KargsEnv → Text → Action Effect (Unit {0})
  apply_final_str env final =
      apply env (api.from_string final) (not (text_eq env.existing_kernel_args final))

  -- kernel_arg_apply_patching
  unfoldable pub apply_patching : KargsEnv → K → Action Effect (Unit {0})
  apply_patching env kargs =
      call (patch env kargs) >>= λ (patched, changed). apply env patched changed

  abbrev pub final_or_patching : KargsEnv → Option Text → Action Effect (Unit {0})
  final_or_patching env (some final) = apply_final_str env final
  final_or_patching env none = apply_patching env (api.from_string env.existing_kernel_args)

  -- kernel_arg_transaction_execute
  unfoldable pub kernel_arg_execute : KargsEnv → Action Effect (Unit {0})
  kernel_arg_execute env = call env.upgrader_new >> final_or_patching env env.final_kernel_args
