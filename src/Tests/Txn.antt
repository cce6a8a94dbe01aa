-- ===== src/Tests/Txn.antt =====
-- The transactions of src/daemon/rpmostreed-transaction-types.cxx on concrete states.
use rpm_ostree.Txn.Effects.{bump_mtime, reboot}
use rpm_ostree.Prelude.{◌≡◌, ◌≢◌, ◌⊎◌, refl, ◌↔◌, true, false, none, some, List, [], ◌∷◌, ◌++◌, All}
use rpm_ostree.Prelude.Text.{Text, codes}
use rpm_ostree.Prelude.Result.{ok, error}
use rpm_ostree.Sysroot.Deployments.{Deployment}
use rpm_ostree.Txn.Cleanup.{
  CleanupFlags, CleanupEnv, cleanup_execute, KeepsBooted, cleanup_execute-KeepsBooted,
}
use rpm_ostree.Txn.Rollback.{
  RollbackEnv, choose_deployment, rollback_execute, ReordersAll, rollback_execute-Reorders,
}
use rpm_ostree.Txn.Finalize.{
  FinalizeEnv, finalize_execute, Finalizes, unlocks_first, finalize_execute-Finalizes,
}
use rpm_ostree.Txn.Initramfs.{contains, InitramfsEnv, changed_files}
use rpm_ostree.Txn.InitramfsSet.{requested, changed_files-refines}
use rpm_ostree.Txn.ModifyRepo.{
  RepoEnv, modify_repo_execute, OnlyEnables, CommitsAll, modify_repo_execute-CommitsAll,
}
use rpm_ostree.Txn.KernelArgs.{KargsApi, Appends, KargsEnv, kernel_arg_execute}
use rpm_ostree.Txn.KernelArgsLaws.{AppendsOnly, appended, kernel_arg_execute-appends}

abbrev fedora : Text
fedora = codes "fedora"

abbrev pending : Deployment
pending = record {
  id = 2;
  osname = fedora;
  pinned = false;
  staged = true;
  finalization_locked = true;
}

abbrev booted : Deployment
booted = record {
  id = 1;
  osname = fedora;
  pinned = false;
  staged = false;
  finalization_locked = false;
}

abbrev old : Deployment
old = record {
  id = 0;
  osname = fedora;
  pinned = false;
  staged = false;
  finalization_locked = false;
}

abbrev cleanup_env : CleanupEnv
cleanup_env = record {
  osname = fedora;
  deployments = pending ∷ booted ∷ old ∷ [];
  booted = some 1;
  get_repo = ok tt;
  write = ok tt;
  cleanup = error (codes "no space");
  clear_cache = ok tt;
}

abbrev all_flags : CleanupFlags
all_flags = record { base = true; repomd = true; pending_deploy = true; rollback_deploy = true }

cleanup_execute-KeepsBooted_example :
    All (KeepsBooted 1) (cleanup_execute cleanup_env all_flags []).1
cleanup_execute-KeepsBooted_example = cleanup_execute-KeepsBooted cleanup_env all_flags 1 refl refl

abbrev rollback_env : RollbackEnv
rollback_env = record {
  deployments = booted ∷ old ∷ [];
  booted = some booted;
  pending = none;
  rollback = some old;
  want_reboot = true;
  write = ok tt;
  inhibitor_locks = ok tt;
}

chosen_old :
    choose_deployment rollback_env.pending rollback_env.rollback rollback_env.booted ≡ ok (some old)
unfolding choose_deployment
chosen_old = refl

rollback_execute-Reorders_example :
    ReordersAll old (booted ∷ old ∷ []) (rollback_execute rollback_env)
rollback_execute-Reorders_example = rollback_execute-Reorders rollback_env old chosen_old refl

abbrev finalize_env : FinalizeEnv
finalize_env = record {
  osname = fedora;
  base_commit = ok (codes "abc");
  image_digest = none;
  expected_checksum = some (codes "abc");
  allow_missing_checksum = none;
  allow_unlocked = none;
  list_inhibitors = ok (
      some (
        record {
          what = codes "sleep:shutdown";
          who = codes "PackageKit";
          why = codes "update";
          mode = codes "delay";
        }
        ∷ []));
  decimal = λ n. [];
  unlock = ok tt;
}

finalize_execute-Finalizes_example :
    (((finalize_execute finalize_env (pending ∷ booted ∷ []) []).0 ≡ ok tt)
      ↔ Finalizes finalize_env pending (codes "abc"))
    × ((finalize_execute finalize_env (pending ∷ booted ∷ []) []
          ≡ (ok tt, unlocks_first (pending ∷ booted ∷ []) ++ bump_mtime ∷ reboot ∷ []))
        ⊎ (((finalize_execute finalize_env (pending ∷ booted ∷ []) []).0 ≢ ok tt)
            × ((finalize_execute finalize_env (pending ∷ booted ∷ []) []).1 ≡ [])))
finalize_execute-Finalizes_example =
    finalize_execute-Finalizes finalize_env pending (booted ∷ []) (codes "abc") refl

abbrev crypttab : Text
crypttab = codes "/etc/crypttab"

abbrev initramfs_env : InitramfsEnv
initramfs_env = record {
  track = some (crypttab ∷ []);
  untrack = none;
  untrack_all = false;
  force_sync = false;
  want_reboot = none;
  upgrader_new = ok tt;
  upgrader_deploy = ok tt;
  inhibitor_locks = ok tt;
}

changed_files-refines_example :
    contains crypttab (changed_files initramfs_env []).0
    ≡ requested initramfs_env (λ f. contains f []) crypttab
changed_files-refines_example = changed_files-refines initramfs_env [] crypttab

-- Kernel arguments as the list of them, of which the texts hold at most one.
abbrev list_api : KargsApi (List Text)
list_api = record {
  from_string = λ text. text ∷ [];
  to_strv = λ args. args;
  delete = λ args arg. error (codes "not found");
  new_replace = λ args arg. error (codes "not found");
  append = λ args arg. args ++ arg ∷ [];
  append_argv = λ args more. args ++ more;
}

list_api-Appends : Appends list_api
list_api-Appends = record { to_strv-append = λ k a. refl }

abbrev kargs_env : KargsEnv
kargs_env = record {
  existing_kernel_args = codes "quiet";
  kernel_args_added = none;
  kernel_args_replaced = none;
  kernel_args_deleted = none;
  append_if_missing = some (codes "quiet" ∷ codes "debug" ∷ []);
  delete_if_present = none;
  final_kernel_args = none;
  want_reboot = none;
  upgrader_new = ok tt;
  upgrader_deploy = ok tt;
  inhibitor_locks = ok tt;
}

appends_two : AppendsOnly kargs_env (codes "quiet" ∷ codes "debug" ∷ [])
appends_two = record {
  appends = refl;
  adds_none = refl;
  replaces_none = refl;
  deletes_none = refl;
  deletes_none_present = refl;
  no_final = refl;
}

kernel_arg_execute-appends_example :
    kernel_arg_execute list_api kargs_env []
    ≡ appended kargs_env kargs_env.upgrader_new
        (codes "quiet" ∷ codes "debug" ∷ [])
        (codes "quiet" ∷ [])
kernel_arg_execute-appends_example =
    kernel_arg_execute-appends list_api list_api-Appends kargs_env
      (codes "quiet" ∷ codes "debug" ∷ []) appends_two

abbrev repo_env : RepoEnv
repo_env = record {
  repo_id = codes "updates";
  setup = ok tt;
  found = true;
  set_data = λ parameter value. ok tt;
  commit = ok tt;
}

-- The second setting is refused.
abbrev settings : List (Text × Text)
settings = (codes "enabled", codes "0") ∷ (codes "baseurl", codes "x") ∷ []

modify_repo_execute-CommitsAll_example :
    All OnlyEnables (modify_repo_execute repo_env settings []).1
    × CommitsAll settings (modify_repo_execute repo_env settings [])
modify_repo_execute-CommitsAll_example = modify_repo_execute-CommitsAll repo_env settings
