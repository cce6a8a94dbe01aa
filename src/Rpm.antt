-- ===== src/Rpm.antt =====
-- Packages: branch names in the package cache and comparisons of package sets,
-- src/libpriv/rpmostree-rpm-util.cxx.
pub mod Branch
pub mod BranchLaws
pub mod HeaderDiff
pub mod HeaderDiffLaws
