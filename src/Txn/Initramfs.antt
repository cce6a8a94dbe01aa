-- ===== src/Txn/Initramfs.antt =====
-- initramfs_etc_transaction_execute and initramfs_state_transaction_execute of
-- src/daemon/rpmostreed-transaction-types.cxx, on the origin's part about the initramfs
-- (src/libpriv/rpmostree-origin.cxx, which calls rust/src/treefile.rs).
use rpm_ostree.Prelude.{
  Bool, true, false, not, ◌&&◌, ◌||◌, Option, none, some, List, [], ◌∷◌, ◌++◌, any, ◌==◌,
  if◌then◌else◌, length,
}
use rpm_ostree.Prelude.Text.{Text, text_eq, has_prefix, codes}
use rpm_ostree.Prelude.Result.{Result, Action, pure, throw, call, attempt, throw_if, ◌>>◌}
use rpm_ostree.Txn.Effects.{Effect, deploy, reboot_if, vardict_lookup_bool}

-- A set of paths is a list without repetitions.
abbrev pub contains : Text → List Text → Bool
contains f files = any (λ g. text_eq g f) files

abbrev pub add_file : Text → List Text → List Text
add_file f files = if contains f files then files else files ++ f ∷ []

unfoldable pub add_files : List Text → List Text → List Text
add_files [] files = files
add_files (f ∷ fs) files = add_files fs (add_file f files)

unfoldable pub remove_file : Text → List Text → List Text
remove_file f [] = []
remove_file f (g ∷ gs) = let rest = remove_file f gs in if text_eq g f then rest else g ∷ rest

-- initramfs_etc_files_track: the new set, and whether files were added
unfoldable pub files_track : List Text → List Text → List Text × Bool
files_track fs files = let new = add_files fs files in (new, not (length new == length files))

-- initramfs_etc_files_untrack
unfoldable pub files_untrack : List Text → List Text → List Text × Bool
files_untrack [] files = (files, false)
files_untrack (f ∷ fs) files =
    let (rest, changed) = files_untrack fs (remove_file f files) in
    (rest, contains f files || changed)

abbrev pub is_empty : List Text → Bool
is_empty [] = true
is_empty (x ∷ xs) = false

-- The parameters and options of the two methods, and how the upgrader's calls end.
pub record InitramfsEnv : Type 0 where
  pub track : Option (List Text)
  pub untrack : Option (List Text)
  pub untrack_all : Bool
  pub force_sync : Bool
  pub want_reboot : Option Bool
  pub upgrader_new : Result (Unit {0})
  pub upgrader_deploy : Result (Unit {0})
  pub inhibitor_locks : Result (Unit {0})

unfoldable pub untracked : InitramfsEnv → List Text → List Text × Bool
untracked env files =
    if env.untrack_all
    then ([], not (is_empty files))
    else elim env.untrack [ none ↦ (files, false) | some fs ↦ files_untrack fs files ]

unfoldable pub then_tracked : Option (List Text) → List Text × Bool → List Text × Bool
then_tracked none (files, changed) = (files, changed)
then_tracked (some fs) (files, changed) =
    let (new, added) = files_track fs files in (new, added || changed)

-- The origin's files after the changes, and whether there were any.
unfoldable pub changed_files : InitramfsEnv → List Text → List Text × Bool
changed_files env files = then_tracked env.track (untracked env files)

unfoldable pub check_paths : List Text → Action Effect (Unit {0})
check_paths [] = pure tt
check_paths (f ∷ fs) =
    if not (has_prefix f (codes "/etc/"))
    then throw (codes "Path outside /etc forbidden: " ++ f)
    else check_paths fs

-- The end that the transactions share: deploy, and reboot if that is wanted.
unfoldable pub deploy_and_reboot : InitramfsEnv → Action Effect (Unit {0})
deploy_and_reboot env =
    attempt deploy env.upgrader_deploy
    >> reboot_if (vardict_lookup_bool env.want_reboot false) env.inhibitor_locks

-- initramfs_etc_transaction_execute, with the files that the origin tracks
unfoldable pub etc_execute : InitramfsEnv → List Text → Action Effect (Unit {0})
etc_execute env files =
    let (new, changed) = changed_files env files in
    call env.upgrader_new
    >> (if not changed && not env.force_sync
        then pure tt
        else check_paths new >> deploy_and_reboot env)

-- get_initramfs_regenerate and get_initramfs_args of the origin
pub record InitramfsState : Type 0 where
  pub regenerate : Bool
  pub args : List Text

-- initramfs_state_transaction_execute, for the wanted state `regenerate` and `args`
unfoldable pub state_execute :
    InitramfsEnv → InitramfsState → InitramfsState → Action Effect (Unit {0})
state_execute env current wanted =
    call env.upgrader_new
    >> (throw_if
          ((if current.regenerate then wanted.regenerate else not wanted.regenerate)
            && (is_empty current.args && is_empty wanted.args))
          (codes "initramfs regeneration state is already "
            ++ (if current.regenerate then codes "enabled" else codes "disabled"))
        >> deploy_and_reboot env)
