-- ===== src/Txn/InitramfsSet.antt =====
-- The list of tracked initramfs files implements a set of paths.
use rpm_ostree.Prelude.{
  ◌≡◌, refl, sym, ap, ◌∙◌, inl, inr, Bool, true, false, not, ◌&&◌, ◌||◌, Option, none, some, List,
  [], ◌∷◌, arith, Bool-cases, Option-cases, if◌then◌else◌,
}
use rpm_ostree.Prelude.Text.{Text, text_eq, text_eq_sound}
use rpm_ostree.Txn.Initramfs.{
  contains, add_file, add_files, remove_file, files_track, files_untrack, InitramfsEnv, untracked,
  then_tracked, changed_files,
}
use rpm_ostree.Txn.InitramfsLaws.{contains-append}

-- A set of paths by its members, and the three changes of it.
abbrev pub PathSet : Type 0
PathSet = Text → Bool

abbrev pub minus : PathSet → Option (List Text) → PathSet
minus set none g = set g
minus set (some fs) g = set g && not (contains g fs)

abbrev pub plus : PathSet → Option (List Text) → PathSet
plus set none g = set g
plus set (some fs) g = set g || contains g fs

-- What a request makes of the set: nothing, or the set without what is untracked, and then what is
-- tracked.
abbrev pub requested : InitramfsEnv → PathSet → PathSet
requested env set = plus (if env.untrack_all then (λ g. false) else minus set env.untrack) env.track

same_contains :
    (f g : Text) (files : List Text) → text_eq f g ≡ true → contains g files ≡ contains f files
same_contains f g files e = ap (λ h. contains h files) (sym (text_eq_sound f g e))

add_file-contains :
    (f g : Text) (files : List Text)
    → contains g (add_file f files) ≡ (contains g files || text_eq f g)
add_file-contains f g files =
    ground (arith, contains-append g files (f ∷ []), same_contains f g files)

add_files-contains :
    (fs : List Text) (g : Text) (files : List Text)
    → contains g (add_files fs files) ≡ (contains g files || contains g fs)
unfolding add_files
add_files-contains [] g files = ground arith
add_files-contains (f ∷ fs) g files =
    ground (arith, add_files-contains fs g (add_file f files), add_file-contains f g files)

text_eq_same : (h f g : Text) → text_eq h f ≡ true → text_eq h g ≡ text_eq f g
text_eq_same h f g e = ap (λ k. text_eq k g) (text_eq_sound h f e)

remove_file-contains :
    (f g : Text) (files : List Text)
    → contains g (remove_file f files) ≡ (contains g files && not (text_eq f g))
unfolding remove_file
remove_file-contains f g [] = refl
remove_file-contains f g (h ∷ files) = ground (
  arith,
  remove_file-contains f g files,
  text_eq_same h f g,
  λ (e : text_eq f g ≡ true). ap (λ k. text_eq h k) (text_eq_sound f g e),
)

files_untrack-contains :
    (fs : List Text) (g : Text) (files : List Text)
    → contains g (files_untrack fs files).0 ≡ (contains g files && not (contains g fs))
unfolding files_untrack
files_untrack-contains [] g files = ground arith
files_untrack-contains (f ∷ fs) g files =
    ground
      (arith, files_untrack-contains fs g (remove_file f files), remove_file-contains f g files)

untracked-contains :
    (env : InitramfsEnv) (g : Text) (files : List Text)
    → contains g (untracked env files).0
      ≡ (if env.untrack_all then (λ h. false) else minus (λ h. contains h files) env.untrack) g
unfolding untracked
untracked-contains env g files = elim (Bool-cases env.untrack_all) [
  | inl e ↦ rw (e, untracked)
  | inr e ↦ elim (Option-cases env.untrack) [
    | inl n ↦ rw (e, n, untracked)
    | inr (fs, n) ↦ rw (e, n, untracked) (files_untrack-contains fs g files)
  ]
]

then_tracked-contains :
    (track : Option (List Text)) (r : List Text × Bool) (g : Text)
    → contains g (then_tracked track r).0 ≡ plus (λ f. contains f r.0) track g
unfolding then_tracked files_track
then_tracked-contains none r g = refl
then_tracked-contains (some fs) r g = add_files-contains fs g r.0

plus_ap :
    (track : Option (List Text)) (set set' : PathSet) (g : Text)
    → set g ≡ set' g
    → plus set track g ≡ plus set' track g
plus_ap none set set' g e = e
plus_ap (some fs) set set' g e = ap (λ b. b || contains g fs) e

-- The list of tracked files refines the set of them: for every request, the paths in the list after it
-- are the paths that the request makes of the paths in the list before.
pub changed_files-refines :
    (env : InitramfsEnv) (files : List Text) (g : Text)
    → contains g (changed_files env files).0 ≡ requested env (λ f. contains f files) g
unfolding changed_files
changed_files-refines env files g =
    then_tracked-contains env.track (untracked env files) g
    ∙ plus_ap env.track (λ f. contains f (untracked env files).0) _ g
        (untracked-contains env g files)
