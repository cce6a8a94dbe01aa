-- ===== src/Core/PackagesLaws.antt =====
-- When a package is taken from the package cache, and where sort_packages puts each package.
use rpm_ostree.Prelude.{
  ◌≡◌, refl, sym, ap, ◌∙◌, ◌↔◌, Bool, true, false, not, ◌&&◌, ◌||◌, none, List, [], ◌∷◌, ◌++◌, All,
  arith, if◌then◌else◌, append_assoc, append-nil,
}
use rpm_ostree.Core.Packages.{
  Candidate, Context, pkg_is_cached, chksum_matches, is_nodocs, same, found_import,
  compare_repodata, load_commit, find_pkg_in_ostree, Sorted, Sorting, sorted, add_if, place,
  sort_loop, sort_packages,
}
use rpm_ostree.Prelude.Result.{ok, error}

abbrev pub filter : (Candidate → Bool) → List Candidate → List Candidate
filter f [] = []
filter f (p ∷ ps) = if f p then p ∷ filter f ps else filter f ps

-- The loop gets over the package: it is not cancelled, the look into the cache answers
-- `answer p`, and a LocalPackage is in the cache, but for a container.
pub record IsAnswered (ctx : Context) (answer : Candidate → Bool × Bool) (p : Candidate)
    : Type 0 where
  pub going_on : p.cancelled ≡ none
  pub looked_up : find_pkg_in_ostree ctx p ≡ ok (answer p)
  pub imported : (p.from_cmdline_repo && not ctx.is_container && not (answer p).0) ≡ false

-- The checksum and the nodocs flag of the commit are the expected ones.
abbrev pub has_repodata : Context → Candidate → Bool
has_repodata ctx p = elim p.expected_chksum [
  | error e ↦ false
  | ok expected ↦ elim p.commit_chksum [
    | error e ↦ false
    | ok chksum ↦
        chksum_matches expected chksum && same (not ctx.documentation) (is_nodocs p.commit_nodocs)
  ]
]

-- The answer to *out_selinux_match.
abbrev pub PolicyAnswer : Context → Candidate → Bool → Type 0
PolicyAnswer ctx p m = if ctx.sepolicy && ctx.selinux then p.matching_sepolicy ≡ ok m else m ≡ true

filter_if :
    (b : Bool) (p : Candidate) (ps acc : List Candidate)
    → add_if b p acc ++ ps ≡ acc ++ (if b then p ∷ ps else ps)
filter_if true p ps acc = append_assoc acc (p ∷ []) ps
filter_if false p ps acc = refl

abbrev pub needs_download : (Candidate → Bool × Bool) → Candidate → Bool
needs_download answer p = not (answer p).0 && not (pkg_is_cached p)

abbrev pub needs_import : (Candidate → Bool × Bool) → Candidate → Bool
needs_import answer p = not (answer p).0

abbrev pub needs_relabel : (Candidate → Bool × Bool) → Candidate → Bool
needs_relabel answer p = (answer p).0 && not (answer p).1

abbrev pub arrays : List Candidate → List Candidate → List Candidate → Sorting
arrays d i r = sorted (record { to_download = d; to_import = i; to_relabel = r })

arrays-ap :
    (d d' i i' r r' : List Candidate) → d ≡ d' → i ≡ i' → r ≡ r' → arrays d i r ≡ arrays d' i' r'
arrays-ap d d' i i' r r' hd hi hr =
    ap (λ x. arrays x i r) hd ∙ ap (λ x. arrays d' x r) hi ∙ ap (λ x. arrays d' i' x) hr

module _ (ctx : Context) (answer : Candidate → Bool × Bool) where
  sort_loop-step :
      (p : Candidate) (ps : List Candidate) (s : Sorted)
      → IsAnswered ctx answer p
      → sort_loop ctx (p ∷ ps) s ≡ sort_loop ctx ps (place p (answer p).0 (answer p).1 s)
  unfolding sort_loop
  sort_loop-step p ps s v = simp (v.going_on, v.looked_up, v.imported)

  sort_loop-Sorts :
      (ps : List Candidate) (d i r : List Candidate)
      → All (IsAnswered ctx answer) ps
      → sort_loop ctx ps (record { to_download = d; to_import = i; to_relabel = r })
        ≡ arrays
            (d ++ filter (needs_download answer) ps)
            (i ++ filter (needs_import answer) ps)
            (r ++ filter (needs_relabel answer) ps)
  unfolding place
  sort_loop-Sorts [] d i r h =
      unfold sort_loop in
      arrays-ap _ _ _ _ _ _ (sym (append-nil d)) (sym (append-nil i)) (sym (append-nil r))
  sort_loop-Sorts (p ∷ ps) d i r h =
      sort_loop-step p ps (record { to_download = d; to_import = i; to_relabel = r }) h.0
      ∙ (sort_loop-Sorts ps (add_if (needs_download answer p) p d)
            (add_if (needs_import answer p) p i) (add_if (needs_relabel answer p) p r) h.1
          ∙ arrays-ap _ _ _ _ _ _ (filter_if (needs_download answer p) p _ d)
              (filter_if (needs_import answer p) p _ i) (filter_if (needs_relabel answer p) p _ r))

  -- Where the loop gets over every package (none is cancelled, each look into the cache answers, and a
  -- LocalPackage is in the cache, but for a container), each array has its packages in their order:
  -- to import are those without an import in the cache, to download are those of them without a
  -- file, and to relabel are those with an import under another policy.
  pub sort_packages-Sorts :
      (ps : List Candidate)
      → All (IsAnswered ctx answer) ps
      → sort_packages ctx ps
        ≡ arrays
            (filter (needs_download answer) ps)
            (filter (needs_import answer) ps)
            (filter (needs_relabel answer) ps)
  unfolding sort_packages
  sort_packages-Sorts ps h = sort_loop-Sorts ps [] [] [] h

-- A package counts as imported, with the answer `m` on its SELinux labels, exactly when there is a
-- package cache, its branch resolves to a whole commit, it is a LocalPackage or the commit has the
-- expected checksum and nodocs flag, and `m` is the comparison of the policies, or TRUE where there
-- is no policy or SELinux is off.
pub find_pkg_in_ostree-reuses :
    (ctx : Context) (p : Candidate) (m : Bool)
    → (find_pkg_in_ostree ctx p ≡ ok (true, m)) ↔ (
        (ctx.pkgcache_repo ≡ true)
        × (p.cached_rev ≡ ok true)
        × (p.partial ≡ ok false)
        × ((p.from_cmdline_repo || has_repodata ctx p) ≡ true)
        × PolicyAnswer ctx p m)
unfolding find_pkg_in_ostree load_commit compare_repodata found_import
find_pkg_in_ostree-reuses ctx p m = ground arith
