-- ===== src/Tests/Rpm.antt =====
-- Branch names and package differences, src/libpriv/rpmostree-rpm-util.cxx, on concrete packages.
use Prim.Native.Nat.{compare, Ordering}
use rpm_ostree.Prelude.{◌≡◌, refl, some, List, [], ◌∷◌, ◌++◌, arith}
use rpm_ostree.Prelude.Text.{Text, strcmp}
use rpm_ostree.Rpm.Branch.{drop_zero_epoch, cache_branch, cache_branch_to_nevra}
use rpm_ostree.Rpm.BranchLaws.{IsAscii, cache_branch_injective, cache_branch_to_nevra-cache_branch}
use rpm_ostree.Rpm.HeaderDiff.{Header, rpmhdrs_diff}
use rpm_ostree.Rpm.HeaderDiffLaws.{find, IsSorted, Tells, rpmhdrs_diff-Tells}

abbrev vim : Text
vim = 118 ∷ 43 ∷ []

abbrev evr : Text
evr = 48 ∷ 58 ∷ 57 ∷ []

abbrev noarch : Text
noarch = 97 ∷ []

vim-IsAscii : IsAscii vim
vim-IsAscii = (omega arith, (omega arith, tt))

evr-IsAscii : IsAscii (drop_zero_epoch evr)
unfolding drop_zero_epoch
evr-IsAscii = (omega arith, tt)

noarch-IsAscii : IsAscii noarch
noarch-IsAscii = (omega arith, tt)

cache_branch_injective_example :
    (vim ≡ vim) × (drop_zero_epoch evr ≡ drop_zero_epoch evr) × (noarch ≡ noarch)
cache_branch_injective_example =
    cache_branch_injective vim evr noarch vim evr noarch vim-IsAscii evr-IsAscii noarch-IsAscii
      vim-IsAscii evr-IsAscii noarch-IsAscii (λ e. ground arith, tt) (λ e. ground arith, tt) refl

cache_branch_to_nevra-cache_branch_example :
    cache_branch_to_nevra (cache_branch vim evr noarch)
    ≡ some (vim ++ (45 ∷ (drop_zero_epoch evr ++ (46 ∷ noarch))))
cache_branch_to_nevra-cache_branch_example =
    cache_branch_to_nevra-cache_branch vim evr noarch vim-IsAscii evr-IsAscii noarch-IsAscii

abbrev bash : Header
bash = record { name = 98 ∷ []; tags = 1 }

abbrev old_nano : Header
old_nano = record { name = 110 ∷ []; tags = 1 }

abbrev new_nano : Header
new_nano = record { name = 110 ∷ []; tags = 2 }

abbrev zsh : Header
zsh = record { name = 122 ∷ []; tags = 1 }

abbrev by_tags : Header → Header → Ordering
by_tags a b = compare a.tags b.tags

abbrev old_set : List Header
old_set = bash ∷ old_nano ∷ []

abbrev new_set : List Header
new_set = new_nano ∷ zsh ∷ []

old_set-IsSorted : IsSorted old_set
unfolding strcmp
old_set-IsSorted = ((refl, tt), (tt, tt))

new_set-IsSorted : IsSorted new_set
unfolding strcmp
new_set-IsSorted = ((refl, tt), (tt, tt))

rpmhdrs_diff-Tells_example :
    Tells by_tags
      (110 ∷ [])
      (rpmhdrs_diff by_tags old_set new_set)
      (find (110 ∷ []) old_set)
      (find (110 ∷ []) new_set)
rpmhdrs_diff-Tells_example =
    rpmhdrs_diff-Tells by_tags (110 ∷ []) old_set new_set old_set-IsSorted new_set-IsSorted
