-- ===== src/Tests/PackageDiff.antt =====
-- The difference of package lists, src/lib/rpmostree-package.c, on concrete lists.
use Prim.Native.Nat.{Ordering}
use rpm_ostree.Prelude.{◌≡◌, refl, inl, [], ◌∷◌}
use rpm_ostree.Prelude.Text.{codes, strcmp}
use rpm_ostree.PackageDiff.Defs.{Package, diff_package_lists}
use rpm_ostree.PackageDiff.Partition.{is_named, IsPartition, diff_package_lists-IsPartition}
use rpm_ostree.Prelude.{some}
use rpm_ostree.Prelude.Result.{ok}
use rpm_ostree.PackageDiff.Update.{RpmDiff, add_db_diff, accounted, add_db_diff-accounted}
use rpm_ostree.PackageDiff.Exact.{IsExact, diff_package_lists-IsExact}

abbrev bash_old : Package
bash_old = record { name = codes "bash"; evr = codes "5.1"; arch = codes "x86_64" }

abbrev bash_new : Package
bash_new = record { name = codes "bash"; evr = codes "5.2"; arch = codes "x86_64" }

abbrev vim : Package
vim = record { name = codes "vim"; evr = codes "9.0"; arch = codes "x86_64" }

bash_before_vim : strcmp (codes "bash") (codes "vim") ≡ Ordering.lt
unfolding strcmp
bash_before_vim = refl

diff_package_lists-IsExact_example :
    IsExact strcmp
      (bash_old ∷ vim ∷ [])
      (bash_new ∷ [])
      (diff_package_lists strcmp (bash_old ∷ vim ∷ []) (bash_new ∷ []))
diff_package_lists-IsExact_example =
    diff_package_lists-IsExact strcmp (bash_old ∷ vim ∷ []) (bash_new ∷ [])
      ((inl bash_before_vim, tt), (tt, tt)) (tt, tt)

i686_first : strcmp (codes "i686") (codes "x86_64") ≡ Ordering.lt
unfolding strcmp
i686_first = refl

same_version : strcmp (codes "5.1") (codes "5.1") ≡ Ordering.eq
unfolding strcmp
same_version = refl

diff_package_lists-IsPartition_example :
    IsPartition strcmp
      (is_named (codes "vim") (codes "x86_64"))
      (codes "bash")
      (codes "x86_64")
      (bash_old ∷ vim ∷ [])
      (bash_new ∷ [])
      (diff_package_lists strcmp (bash_old ∷ vim ∷ []) (bash_new ∷ []))
diff_package_lists-IsPartition_example =
    diff_package_lists-IsPartition strcmp (is_named (codes "vim") (codes "x86_64")) (codes "bash")
      (codes "x86_64") (bash_old ∷ vim ∷ []) (bash_new ∷ [])

abbrev empty_diff : RpmDiff
empty_diff = record { upgraded = []; downgraded = []; removed = []; added = [] }

add_db_diff-accounted_example :
    add_db_diff strcmp empty_diff (ok (some (bash_old ∷ vim ∷ []))) (ok (some (bash_new ∷ [])))
    ≡ some (
        ok (
          accounted strcmp empty_diff
            (diff_package_lists strcmp (bash_old ∷ vim ∷ []) (bash_new ∷ []))))
add_db_diff-accounted_example =
    add_db_diff-accounted strcmp empty_diff (bash_old ∷ vim ∷ []) (bash_new ∷ [])
