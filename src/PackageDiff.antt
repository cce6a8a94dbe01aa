-- ===== src/PackageDiff.antt =====
-- The difference of two package lists, src/lib/rpmostree-package.c.
pub mod Defs
pub mod Partition
pub mod Sorted
pub mod Exact
pub mod Update
