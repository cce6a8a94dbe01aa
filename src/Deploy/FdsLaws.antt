-- ===== src/Deploy/FdsLaws.antt =====
-- When the descriptors of a request can be split, and what the lists then hold.
use rpm_ostree.Prelude.{
  ℕ, zero, suc, ◌+◌, ◌^◌, ◌<◌, ◌≡◌, refl, sym, ap, ◌∙◌, ◌⊎◌, inl, inr, Option-cases, Bool-cases,
  Bool, true, false, ◌&&◌, Option, none, some, List, [], ◌∷◌, if_true, length, get_elem?,
  if◌then◌else◌, is_some, ltb, arith,
}
use rpm_ostree.Prelude.Int.{ℤ, pos, negsuc}
use rpm_ostree.Deploy.Request.{Modifiers}
use rpm_ostree.Deploy.Fds.{
  get_fd, asserted, get_fd_array_from_sparse, LocalFds, n_children, remote_idx, is_minus_one,
  expected_fdn, split_list, split_remote, split_fds, actual_fdn,
}

-- A handle is an index into n descriptors.
abbrev pub in_range : ℕ → ℤ → Bool
in_range n (pos h) = ltb h n
in_range n (negsuc h) = false

abbrev pub all_in_range : ℕ → List ℤ → Bool
all_in_range n [] = true
all_in_range n (h ∷ hs) = in_range n h && all_in_range n hs

abbrev pub list_in_range : ℕ → Option (List ℤ) → Bool
list_in_range n none = true
list_in_range n (some hs) = all_in_range n hs

-- Every handle of a request is an index into n descriptors.
abbrev pub handles_in_range : ℕ → Modifiers → Bool
handles_in_range n m =
    list_in_range n m.install_local_packages
    && (list_in_range n m.install_fileoverride_local_packages
        && (list_in_range n m.override_replace_local_packages
            && (if is_minus_one (remote_idx m.local_repo_remote)
                then true
                else in_range n (remote_idx m.local_repo_remote))))

get_elem?-is_some : (fds : List ℕ) (h : ℕ) → is_some (get_elem? fds h) ≡ ltb h (length fds)
get_elem?-is_some [] h = ground arith
get_elem?-is_some (fd ∷ fds) zero = ground arith
get_elem?-is_some (fd ∷ fds) (suc h) = ground (arith, get_elem?-is_some fds h)

get_fd-is_some : (fds : List ℕ) (h : ℤ) → is_some (get_fd fds h) ≡ in_range (length fds) h
unfolding get_fd
get_fd-is_some fds (pos h) = get_elem?-is_some fds h
get_fd-is_some fds (negsuc h) = refl

get_fd_array_from_sparse-is_some :
    (fds : List ℕ) (hs : List ℤ)
    → is_some (get_fd_array_from_sparse fds hs) ≡ all_in_range (length fds) hs
unfolding get_fd_array_from_sparse
get_fd_array_from_sparse-is_some fds [] = refl
get_fd_array_from_sparse-is_some fds (h ∷ hs) =
    ground (arith, get_fd-is_some fds h, get_fd_array_from_sparse-is_some fds hs)

split_list-is_some :
    (fds : List ℕ) (hs : Option (List ℤ))
    → is_some (split_list fds hs) ≡ list_in_range (length fds) hs
split_list-is_some fds none = refl
split_list-is_some fds (some hs) = ground (arith, get_fd_array_from_sparse-is_some fds hs)

-- The split of the descriptors passes its assertions exactly when every handle of the request is an
-- index into the descriptors, none being negative or too large.
pub split_fds-is_some :
    (fds : List ℕ) (m : Modifiers)
    → is_some (split_fds (some fds) m) ≡ handles_in_range (length fds) m
unfolding split_fds
split_fds-is_some fds m = ground (
  arith,
  split_list-is_some fds m.install_local_packages,
  split_list-is_some fds m.install_fileoverride_local_packages,
  split_list-is_some fds m.override_replace_local_packages,
  get_fd-is_some fds (remote_idx m.local_repo_remote),
)

-- The number of descriptors in an array, without its end.
abbrev pub n_fds : Option (List ℤ) → ℕ
n_fds none = 0
n_fds (some []) = 0
n_fds (some (fd ∷ fds)) = length fds

get_fd_array_from_sparse-length :
    (fds : List ℕ) (hs array : List ℤ)
    → get_fd_array_from_sparse fds hs ≡ some array
    → length array ≡ suc (length hs)
unfolding get_fd_array_from_sparse
get_fd_array_from_sparse-length fds [] array e = ground (arith, e)
get_fd_array_from_sparse-length fds (h ∷ hs) array e =
    elim (Option-cases (get_fd_array_from_sparse fds hs)) [
      | inl n ↦ ground (arith, e, n)
      | inr (rest, r) ↦ ground (arith, e, r, get_fd_array_from_sparse-length fds hs rest r)
    ]

split_list-cases :
    (fds : List ℕ) (hs : Option (List ℤ))
    → (split_list fds hs ≡ none)
      ⊎ ((array : Option (List ℤ)) × (split_list fds hs ≡ some array)
          × (n_fds array ≡ n_children hs))
split_list-cases fds none = inr (none, refl, refl)
split_list-cases fds (some hs) = elim (Option-cases (get_fd_array_from_sparse fds hs)) [
  | inl n ↦ inl (ap (λ a. asserted a (λ array. some (some array))) n)
  | inr (array, r) ↦ inr (
    some array,
    ap (λ a. asserted a (λ array. some (some array))) r,
    ground (arith, get_fd_array_from_sparse-length fds hs array r),
  )
]

split_remote-cases :
    (fds : List ℕ) (idx : ℤ)
    → (split_remote fds idx ≡ none)
      ⊎ ((dfd : ℤ) × (split_remote fds idx ≡ some dfd) × (is_minus_one dfd ≡ is_minus_one idx))
split_remote-cases fds idx = elim (Bool-cases (is_minus_one idx)) [
  | inl e ↦ inr (negsuc 0, if_true (is_minus_one idx) _ _ e, sym e)
  | inr e ↦ elim (Option-cases (get_fd fds idx)) [
    | inl n ↦ inl (ground (arith, e, n))
    | inr (fd, r) ↦ inr (pos fd, ground (arith, e, r), sym e)
  ]
]

split_fds-remote :
    (fds : List ℕ) (m : Modifiers) (l : LocalFds)
    → split_fds (some fds) m ≡ some l
    → is_minus_one l.local_repo_remote_dfd ≡ is_minus_one (remote_idx m.local_repo_remote)
unfolding split_fds
split_fds-remote fds m l e = ground (
  arith,
  e,
  split_list-cases fds m.install_local_packages,
  split_list-cases fds m.install_fileoverride_local_packages,
  split_list-cases fds m.override_replace_local_packages,
  split_remote-cases fds (remote_idx m.local_repo_remote),
)

-- The split passes exactly when the handles are in range, and finds a local repository exactly when one
-- is named.
pub split_fds-cases :
    (fds : List ℕ) (m : Modifiers)
    → ((handles_in_range (length fds) m ≡ false) × (split_fds (some fds) m ≡ none))
      ⊎ ((handles_in_range (length fds) m ≡ true)
          × (l : LocalFds) × (split_fds (some fds) m ≡ some l)
          × (is_minus_one l.local_repo_remote_dfd ≡ is_minus_one (remote_idx m.local_repo_remote)))
split_fds-cases fds m = elim (Option-cases (split_fds (some fds) m)) [
  | inl n ↦ inl (sym (split_fds-is_some fds m) ∙ ap is_some n, n)
  | inr (l, e) ↦
      inr (sym (split_fds-is_some fds m) ∙ ap is_some e, l, e, split_fds-remote fds m l e)
]

-- The number of descriptors that a request puts into its lists, without the wrap-around.
abbrev pub n_handles : Modifiers → ℕ
n_handles m =
    n_children m.install_local_packages
    + n_children m.install_fileoverride_local_packages
    + n_children m.override_replace_local_packages
    + (if is_minus_one (remote_idx m.local_repo_remote) then 0 else 1)

abbrev pub n_local : LocalFds → ℕ
n_local l =
    n_fds l.install_local
    + n_fds l.install_fileoverride_local
    + n_fds l.override_replace_local
    + (if is_minus_one l.local_repo_remote_dfd then 0 else 1)

split_fds-n_local :
    (fds : List ℕ) (m : Modifiers) (l : LocalFds)
    → split_fds (some fds) m ≡ some l
    → n_local l ≡ n_handles m
unfolding split_fds
split_fds-n_local fds m l e = ground (
  arith,
  e,
  split_list-cases fds m.install_local_packages,
  split_list-cases fds m.install_fileoverride_local_packages,
  split_list-cases fds m.override_replace_local_packages,
  split_remote-cases fds (remote_idx m.local_repo_remote),
)

-- When as many descriptors come as a request expects, and it expects fewer than 2^32, every split that
-- passes its assertions puts as many descriptors into the lists as came.
pub split_fds-counts :
    (fds : List ℕ) (m : Modifiers) (l : LocalFds)
    → n_handles m < 2 ^ 32
    → expected_fdn m ≡ actual_fdn (some fds)
    → split_fds (some fds) m ≡ some l
    → n_local l ≡ length fds
unfolding expected_fdn
split_fds-counts fds m l bound e s = omega (arith, split_fds-n_local fds m l s)
