-- ===== src/Core.antt =====
-- The assembly of a package set, src/libpriv/rpmostree-core.cxx.
pub mod Import
pub mod ImportLaws
pub mod ImportLoop
pub mod ImportEnd
pub mod Goal
pub mod GoalLaws
pub mod GoalAccepts
pub mod Packages
pub mod PackagesLaws
pub mod Relabel
pub mod RelabelLoop
pub mod RelabelLaws
