-- ===== src/Txn/InitramfsLaws.antt =====
-- What a change of the initramfs files may deploy, and when it does nothing.
use rpm_ostree.Prelude.{
  ◌≡◌, refl, sym, ap, ◌∙◌, subst, ◌⊎◌, Bool, true, false, not, ◌&&◌, ◌||◌, none, some, List, [],
  ◌∷◌, ◌++◌, arith, ◌==◌, All, length, Bool-cases, inl, inr, if_true,
}
use rpm_ostree.Prelude.Text.{Text, text_eq_refl, has_prefix, codes}
use rpm_ostree.Prelude.Result.{Result-cases, ok, error, ◌>>◌, >>=-ok, >>=-error}
use rpm_ostree.Txn.Effects.{Effect, deploy}
use rpm_ostree.Txn.Initramfs.{
  contains, add_file, add_files, files_track, InitramfsEnv, untracked, then_tracked, changed_files,
  check_paths, deploy_and_reboot, etc_execute,
}

abbrev pub all_etc : List Text → Bool
all_etc [] = true
all_etc (f ∷ fs) = has_prefix f (codes "/etc/") && all_etc fs

-- A deployment happens only with files below /etc.
abbrev pub AllowedFor : List Text → Effect → Type 0
AllowedFor files deploy = all_etc files ≡ true
AllowedFor files _ = Unit {0}

check_paths-cases :
    (files : List Text)
    → ((all_etc files ≡ true) × (check_paths files [] ≡ (ok tt, [])))
      ⊎ ((m : Text) × (check_paths files [] ≡ (error m, [])))
unfolding check_paths
check_paths-cases [] = inl (refl, refl)
check_paths-cases (f ∷ fs) = elim (Bool-cases (has_prefix f (codes "/etc/"))) [
  | inl e ↦ ground (arith, e, check_paths-cases fs)
  | inr e ↦ inr (codes "Path outside /etc forbidden: " ++ f, ground (arith, e))
]

deploys_allowed :
    (env : InitramfsEnv) (files : List Text)
    → all_etc files ≡ true
    → All (AllowedFor files) (deploy_and_reboot env []).1
unfolding deploy_and_reboot
deploys_allowed env files h = ground (arith, h)

checked_deploy :
    (env : InitramfsEnv) (files : List Text)
    → All (AllowedFor files) ((check_paths files >> deploy_and_reboot env) []).1
checked_deploy env files = elim (check_paths-cases files) [
  | inl (e, c) ↦
      subst (λ r. All (AllowedFor files) r.1)
        (sym (>>=-ok (check_paths files) (λ _. deploy_and_reboot env) [] [] tt c))
        (deploys_allowed env files e)
  | inr (m, c) ↦
      subst (λ r. All (AllowedFor files) r.1)
        (sym (>>=-error (check_paths files) (λ _. deploy_and_reboot env) [] [] m c)) tt
]

-- A change of the tracked files, however its calls end, deploys nothing unless every file that is then
-- tracked lies below /etc.
etc_execute-Allowed :
    (env : InitramfsEnv) (files : List Text)
    → All (AllowedFor (changed_files env files).0) (etc_execute env files []).1
unfolding etc_execute
etc_execute-Allowed env files = elim (Result-cases env.upgrader_new) [
  | inl (u, e) ↦ elim (Bool-cases (not (changed_files env files).1 && not env.force_sync)) [
    | inl skip ↦ ground (arith, e, skip)
    | inr go ↦ ground (arith, e, go, checked_deploy env (changed_files env files).0)
  ]
  | inr (m, e) ↦ ground (arith, e)
]

pub contains-append :
    (f : Text) (xs ys : List Text) → contains f (xs ++ ys) ≡ (contains f xs || contains f ys)
contains-append f [] ys = refl
contains-append f (x ∷ xs) ys = ground (arith, contains-append f xs ys)

add_file-contains :
    (f g : Text) (files : List Text)
    → contains g files ≡ true
    → contains g (add_file f files) ≡ true
add_file-contains f g files h = ground (arith, contains-append g files (f ∷ []))

add_file_self : (f : Text) (files : List Text) → contains f (add_file f files) ≡ true
add_file_self f files = ground (arith, contains-append f files (f ∷ []), text_eq_refl f)

add_files-keeps :
    (fs : List Text) (g : Text) (files : List Text)
    → contains g files ≡ true
    → contains g (add_files fs files) ≡ true
unfolding add_files
add_files-keeps [] g files h = h
add_files-keeps (f ∷ fs) g files h =
    add_files-keeps fs g (add_file f files) (add_file-contains f g files h)

-- Every file of `fs` is in the set.
abbrev HasAll : List Text → List Text → Type 0
HasAll fs files = All (λ f. contains f files ≡ true) fs

add_files-HasAll : (fs files : List Text) → HasAll fs (add_files fs files)
unfolding add_files
add_files-HasAll [] files = tt
add_files-HasAll (f ∷ fs) files = (
  add_files-keeps fs f (add_file f files) (add_file_self f files),
  add_files-HasAll fs (add_file f files),
)

add_files-same : (fs files : List Text) → HasAll fs files → add_files fs files ≡ files
unfolding add_files
add_files-same [] files h = refl
add_files-same (f ∷ fs) files h =
    ap (add_files fs) (if_true (contains f files) _ _ h.0) ∙ add_files-same fs files h.1

-- A request to track files only.
pub record TracksOnly (env : InitramfsEnv) (fs : List Text) : Type 0 where
  pub tracks : env.track ≡ some fs
  pub untracks_none : env.untrack ≡ none
  pub not_all : env.untrack_all ≡ false
  pub not_forced : env.force_sync ≡ false

changed_files-TracksOnly :
    (env : InitramfsEnv) (fs files : List Text)
    → TracksOnly env fs
    → changed_files env files
      ≡ (add_files fs files, not (length (add_files fs files) == length files) || false)
unfolding changed_files then_tracked untracked files_track
changed_files-TracksOnly env fs files v = ground (arith, v)

-- A request that tracks files, and is not forced, does nothing when it comes again: it deploys once.
etc_execute-Again :
    (env : InitramfsEnv) (fs files : List Text)
    → TracksOnly env fs
    → env.upgrader_new ≡ ok tt
    → etc_execute env (changed_files env files).0 [] ≡ (ok tt, [])
unfolding etc_execute
etc_execute-Again env fs files v new =
    let tracked : List Text = (changed_files env files).0 in
    let is_tracked : tracked ≡ add_files fs files =
      ap (λ r. r.0) (changed_files-TracksOnly env fs files v) in
    let all : HasAll fs tracked = subst (HasAll fs) (sym is_tracked) (add_files-HasAll fs files) in
    ground (
      arith,
      new,
      v.not_forced,
      changed_files-TracksOnly env fs tracked v,
      add_files-same fs tracked all,
    )
