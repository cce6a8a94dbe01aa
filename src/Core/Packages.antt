-- ===== src/Core/Packages.antt =====
-- Which packages are downloaded, imported and relabelled: find_pkg_in_ostree and sort_packages of
-- src/libpriv/rpmostree-core.cxx. What ostree, libdnf and the Rust code answer about a package are
-- fields of the package; an error is its message.
use rpm_ostree.Prelude.{
  Bool, true, false, not, ◌&&◌, ◌||◌, Option, none, some, List, [], ◌∷◌, ◌++◌, if◌then◌else◌,
}
use rpm_ostree.Prelude.Result.{Result, ok, error, bind, prefix_error}
use rpm_ostree.Prelude.Text.{Text, text_eq, codes}

-- A package to install: its branch, whether it is a LocalPackage or an RPM file, whether its file is
-- there, and the answers about its branch: whether that resolves, whether its commit is partial,
-- the checksum in it (none if not found) and the expected one, its nodocs flag, and whether it was
-- labelled with this policy. `cancelled` is the error of the cancellable when its turn comes.
pub record Candidate : Type 0 where
  pub branch : Text
  pub from_cmdline_repo : Bool
  pub is_local : Bool
  pub file_exists : Bool
  pub cached_rev : Result Bool
  pub partial : Result Bool
  pub expected_chksum : Result Text
  pub commit_chksum : Result (Option Text)
  pub commit_nodocs : Option Bool
  pub matching_sepolicy : Result Bool
  pub cancelled : Option Text

-- The fields of struct _RpmOstreeContext that are read; `pkgcache_repo` and `sepolicy` say whether
-- they are set, `documentation` and `selinux` are those of the treefile.
pub record Context : Type 0 where
  pub pkgcache_repo : Bool
  pub sepolicy : Bool
  pub selinux : Bool
  pub documentation : Bool
  pub is_container : Bool

-- pkg_is_cached
unfoldable pub pkg_is_cached : Candidate → Bool
pkg_is_cached p = p.is_local || p.file_exists

-- commit_has_matching_repodata_chksum_repr
unfoldable pub chksum_matches : Text → Option Text → Bool
chksum_matches expected none = false
chksum_matches expected (some chksum) = text_eq expected chksum

-- The flag in the commit, FALSE if it has none.
unfoldable pub is_nodocs : Option Bool → Bool
is_nodocs none = false
is_nodocs (some b) = b

abbrev pub same : Bool → Bool → Bool
same true b = b
same false b = not b

-- The end of find_pkg_in_ostree: an import is there. The results are *out_in_ostree and
-- *out_selinux_match, which was `selinux_match`.
unfoldable pub found_import : Context → Candidate → Bool → Result (Bool × Bool)
found_import ctx p selinux_match =
    if ctx.sepolicy && ctx.selinux
    then bind p.matching_sepolicy (λ m. ok (true, m))
    else ok (true, selinux_match)

-- The part for packages that are not LocalPackages.
unfoldable pub compare_repodata : Context → Candidate → Bool → Result (Bool × Bool)
compare_repodata ctx p selinux_match = bind p.expected_chksum (λ expected.
    bind p.commit_chksum (λ chksum.
      if not (chksum_matches expected chksum)
      then ok (false, selinux_match)
      else if not (same (not ctx.documentation) (is_nodocs p.commit_nodocs))
      then ok (false, selinux_match)
      else found_import ctx p selinux_match))

-- The part from the load of the commit on.
unfoldable pub load_commit : Context → Candidate → Bool → Result (Bool × Bool)
load_commit ctx p selinux_match = bind p.partial (λ partial.
    if partial
    then ok (false, selinux_match)
    else if not p.from_cmdline_repo
    then compare_repodata ctx p selinux_match
    else found_import ctx p selinux_match)

-- find_pkg_in_ostree
unfoldable pub find_pkg_in_ostree : Context → Candidate → Result (Bool × Bool)
find_pkg_in_ostree ctx p =
    let selinux_match = not ctx.sepolicy || not ctx.selinux in
    if not ctx.pkgcache_repo
    then ok (false, selinux_match)
    else bind p.cached_rev (λ cached.
      if not cached
      then ok (false, selinux_match)
      else prefix_error (codes "Loading pkgcache branch " ++ p.branch)
          (load_commit ctx p selinux_match))

-- pkgs_to_download, pkgs_to_import and pkgs_to_relabel
pub record Sorted : Type 0 where
  pub to_download : List Candidate
  pub to_import : List Candidate
  pub to_relabel : List Candidate

-- The end of sort_packages: TRUE, FALSE with an error, or a failed assertion.
pub data Sorting : Type 0 where
  sorted : Sorted → Sorting
  failed : Text → Sorting
  aborted : Sorting

abbrev pub add_if : Bool → Candidate → List Candidate → List Candidate
add_if true p ps = ps ++ p ∷ []
add_if false p ps = ps

-- The arrays after a package of which `in_ostree` and `selinux_match` are known.
unfoldable pub place : Candidate → Bool → Bool → Sorted → Sorted
place p in_ostree selinux_match s = record {
  to_download = add_if (not in_ostree && not (pkg_is_cached p)) p s.to_download;
  to_import = add_if (not in_ostree) p s.to_import;
  to_relabel = add_if (in_ostree && not selinux_match) p s.to_relabel;
}

-- The loop of sort_packages.
unfoldable pub sort_loop : Context → List Candidate → Sorted → Sorting
sort_loop ctx [] s = sorted s
sort_loop ctx (p ∷ ps) s = elim p.cancelled [
  | some e ↦ failed e
  | none ↦ elim (find_pkg_in_ostree ctx p) [
    | error e ↦ failed e
    | ok found ↦ elim (p.from_cmdline_repo && not ctx.is_container && not found.0) [
      | true ↦ aborted
      | false ↦ sort_loop ctx ps (place p found.0 found.1 s)
    ]
  ]
]

-- sort_packages, with the three arrays not set; it also resets the counters of the import and gives
-- the packages their repositories, which is not modelled.
unfoldable pub sort_packages : Context → List Candidate → Sorting
sort_packages ctx ps =
    sort_loop ctx ps (record { to_download = []; to_import = []; to_relabel = [] })
