-- ===== src/Deploy/Fds.antt =====
-- The file descriptors of a request: get_fd_array_from_sparse, and the part of
-- deploy_transaction_execute (src/daemon/rpmostreed-transaction-types.cxx) that counts and splits them.
use rpm_ostree.Prelude.{
  ℕ, ◌+◌, ◌%◌, ◌^◌, Bool, false, Option, none, some, List, [], ◌∷◌, length, get_elem?,
  if◌then◌else◌, ◌==◌,
}
use rpm_ostree.Prelude.Int.{ℤ, pos, negsuc}
use rpm_ostree.Deploy.Request.{Modifiers}

-- fds[h] after the assertion that 0 <= h < nfds; `none` is a failed assertion, which ends the process.
unfoldable pub get_fd : List ℕ → ℤ → Option ℕ
get_fd fds (pos h) = get_elem? fds h
get_fd fds (negsuc h) = none

-- What follows an assertion.
abbrev pub asserted {ℓ κ} : {A : Type ℓ} {B : Type κ} → Option A → (A → Option B) → Option B
asserted none k = none
asserted (some a) k = k a

-- get_fd_array_from_sparse: the array ends with -1.
unfoldable pub get_fd_array_from_sparse : List ℕ → List ℤ → Option (List ℤ)
get_fd_array_from_sparse fds [] = some (negsuc 0 ∷ [])
get_fd_array_from_sparse fds (h ∷ hs) =
    asserted (get_fd fds h)
      (λ fd. asserted (get_fd_array_from_sparse fds hs) (λ rest. some (pos fd ∷ rest)))

-- The arrays that the lists of descriptors are made from; `none` for NULL.
pub record LocalFds : Type 0 where
  pub install_local : Option (List ℤ)
  pub install_fileoverride_local : Option (List ℤ)
  pub override_replace_local : Option (List ℤ)
  pub local_repo_remote_dfd : ℤ

-- Without any.
abbrev pub no_local : LocalFds
no_local = record {
  install_local = none;
  install_fileoverride_local = none;
  override_replace_local = none;
  local_repo_remote_dfd = negsuc 0;
}

abbrev pub n_children : Option (List ℤ) → ℕ
n_children none = 0
n_children (some hs) = length hs

-- local_repo_remote_idx, which is -1 at the start
abbrev pub remote_idx : Option ℤ → ℤ
remote_idx none = negsuc 0
remote_idx (some h) = h

abbrev pub is_minus_one : ℤ → Bool
is_minus_one (pos n) = false
is_minus_one (negsuc n) = n == 0

-- expected_fdn, a guint
unfoldable pub expected_fdn : Modifiers → ℕ
expected_fdn m =
    (n_children m.install_local_packages
      + n_children m.install_fileoverride_local_packages
      + n_children m.override_replace_local_packages
      + (if is_minus_one (remote_idx m.local_repo_remote) then 0 else 1))
    % 2 ^ 32

abbrev pub split_list : List ℕ → Option (List ℤ) → Option (Option (List ℤ))
split_list fds none = some none
split_list fds (some hs) = asserted (get_fd_array_from_sparse fds hs) (λ array. some (some array))

abbrev pub split_remote : List ℕ → ℤ → Option ℤ
split_remote fds idx =
    if is_minus_one idx then some (negsuc 0) else asserted (get_fd fds idx) (λ fd. some (pos fd))

-- The split; `none` for a failed assertion.
unfoldable pub split_fds : Option (List ℕ) → Modifiers → Option LocalFds
split_fds none m = some no_local
split_fds (some fds) m = asserted (split_list fds m.install_local_packages) (λ installs.
    asserted (split_list fds m.install_fileoverride_local_packages) (λ fileoverrides.
      asserted (split_list fds m.override_replace_local_packages) (λ replaces.
        asserted (split_remote fds (remote_idx m.local_repo_remote)) (λ dfd. some (record {
          install_local = installs;
          install_fileoverride_local = fileoverrides;
          override_replace_local = replaces;
          local_repo_remote_dfd = dfd;
        })))))

-- actual_fdn
abbrev pub actual_fdn : Option (List ℕ) → ℕ
actual_fdn none = 0
actual_fdn (some fds) = length fds
