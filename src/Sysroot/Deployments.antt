-- ===== src/Sysroot/Deployments.antt =====
-- Choosing among deployments: rpmostree_syscore_filter_deployments and
-- rpmostree_syscore_get_origin_merge_deployment of src/daemon/rpmostree-sysroot-core.cxx.
use rpm_ostree.Prelude.{
  ℕ, ◌≤◌, ◌≡◌, refl, ◌↔◌, Bool, true, false, not, ◌||◌, ◌&&◌, Option, none, some, List, [], ◌∷◌,
  ◌++◌, ◌==◌, arith, if◌then◌else◌, length, All, ==_iff, ap, ◌∙◌,
}
use rpm_ostree.Prelude.Text.{Text, text_eq}

-- An OstreeDeployment; `id` stands for the identity that ostree_deployment_equal compares.
pub record Deployment : Type 0 where
  pub id : ℕ
  pub osname : Text
  pub pinned : Bool
  pub staged : Bool
  pub finalization_locked : Bool

-- booted_deployment != NULL && ostree_deployment_equal (deployment, booted_deployment)
abbrev pub is_booted : Option ℕ → Deployment → Bool
is_booted none d = false
is_booted (some b) d = d.id == b

-- The loop, with `found_booted` as its state.
unfoldable pub filter_loop :
    Option ℕ → Text → Bool → Bool → Bool → List Deployment → List Deployment
filter_loop booted osname pending rollback found [] = []
filter_loop booted osname pending rollback found (d ∷ ds) =
    let rest = filter_loop booted osname pending rollback (is_booted booted d || found) ds in
    if is_booted booted d
    then d ∷ rest
    else if not (text_eq d.osname osname) || d.pinned
    then d ∷ rest
    else if not found && pending
    then rest
    else if found && rollback
    then rest
    else d ∷ rest

-- rpmostree_syscore_filter_deployments: `none` (NULL) if there is nothing to remove.
unfoldable pub filter_deployments :
    List Deployment → Option ℕ → Text → Bool → Bool → Option (List Deployment)
unfolding filter_loop
filter_deployments ds booted osname pending rollback =
    let new = filter_loop booted osname pending rollback false ds in
    if length new == length ds then none else some new

-- rpmostree_syscore_get_origin_merge_deployment
unfoldable pub origin_merge_deployment : List Deployment → Text → Option Deployment
origin_merge_deployment [] osname = none
origin_merge_deployment (d ∷ ds) osname =
    let rest = origin_merge_deployment ds osname in if text_eq d.osname osname then some d else rest

-- What a cleanup of one side of the booted deployment keeps: other operating systems, pinned
-- deployments, and all if the side is not cleaned.
unfoldable pub keep : Bool → Text → List Deployment → List Deployment
keep clean osname [] = []
keep clean osname (d ∷ ds) =
    if not (text_eq d.osname osname) || d.pinned || not clean
    then d ∷ keep clean osname ds
    else keep clean osname ds

-- Before the booted deployment only the pending side is cleaned.
filter_before :
    (booted : Option ℕ) (osname : Text) (p r : Bool) (xs ys : List Deployment)
    → All (λ d. is_booted booted d ≡ false) xs
    → filter_loop booted osname p r false (xs ++ ys)
      ≡ keep p osname xs ++ filter_loop booted osname p r false ys
unfolding filter_loop keep
filter_before booted osname p r [] ys h = refl
filter_before booted osname p r (x ∷ xs) ys h =
    ground (arith, filter_before booted osname p r xs ys h.1)

filter_after :
    (booted : Option ℕ) (osname : Text) (p r : Bool) (ys : List Deployment)
    → All (λ d. is_booted booted d ≡ false) ys
    → filter_loop booted osname p r true ys ≡ keep r osname ys
unfolding filter_loop keep
filter_after booted osname p r [] h = refl
filter_after booted osname p r (y ∷ ys) h = ground (arith, filter_after booted osname p r ys h.1)

filter_booted :
    (b : Deployment) (osname : Text) (p r : Bool) (ys : List Deployment)
    → All (λ d. is_booted (some b.id) d ≡ false) ys
    → filter_loop (some b.id) osname p r false (b ∷ ys) ≡ b ∷ keep r osname ys
unfolding filter_loop
filter_booted b osname p r ys k =
    ground (arith, ==_iff b.id b.id, filter_after (some b.id) osname p r ys k)

-- With deployments before and after the booted one, the filter keeps the booted one, cleans what
-- comes before it under `pending` and what comes after it under `rollback`.
filter_loop-split :
    (b : Deployment) (osname : Text) (pending rollback : Bool) (before after : List Deployment)
    → All (λ d. is_booted (some b.id) d ≡ false) before
    → All (λ d. is_booted (some b.id) d ≡ false) after
    → filter_loop (some b.id) osname pending rollback false (before ++ b ∷ after)
      ≡ keep pending osname before ++ b ∷ keep rollback osname after
filter_loop-split b osname p r before after h k =
    filter_before (some b.id) osname p r before (b ∷ after) h
    ∙ ap (λ zs. keep p osname before ++ zs) (filter_booted b osname p r after k)

-- Nothing is booted: every deployment counts as pending, and a rollback cleanup removes nothing.
filter_loop-unbooted :
    (osname : Text) (pending rollback : Bool) (ds : List Deployment)
    → filter_loop none osname pending rollback false ds ≡ keep pending osname ds
unfolding filter_loop keep
filter_loop-unbooted osname p r [] = refl
filter_loop-unbooted osname p r (d ∷ ds) = ground (arith, filter_loop-unbooted osname p r ds)

length-filter_loop :
    (booted : Option ℕ) (osname : Text) (p r f : Bool) (ds : List Deployment)
    → length (filter_loop booted osname p r f ds) ≤ length ds
unfolding filter_loop
length-filter_loop booted osname p r f [] = omega arith
length-filter_loop booted osname p r f (d ∷ ds) =
    ground (arith, length-filter_loop booted osname p r (is_booted booted d || f) ds)

same_length :
    (booted : Option ℕ) (osname : Text) (p r f : Bool) (ds : List Deployment)
    → length (filter_loop booted osname p r f ds) ≡ length ds
    → filter_loop booted osname p r f ds ≡ ds
unfolding filter_loop
same_length booted osname p r f [] h = refl
same_length booted osname p r f (d ∷ ds) h = ground (
  arith,
  length-filter_loop booted osname p r (is_booted booted d || f) ds,
  same_length booted osname p r (is_booted booted d || f) ds,
)

-- NULL is returned exactly when the filter keeps every deployment.
filter_deployments-none :
    (ds : List Deployment) (booted : Option ℕ) (osname : Text) (pending rollback : Bool)
    → (filter_deployments ds booted osname pending rollback ≡ none)
      ↔ (filter_loop booted osname pending rollback false ds ≡ ds)
unfolding filter_deployments
filter_deployments-none ds booted osname p r =
    let loop = filter_loop booted osname p r false ds in
    ground (
      arith,
      same_length booted osname p r false ds,
      ==_iff (length loop) (length ds),
      λ (e : loop ≡ ds). ap length e,
    )
