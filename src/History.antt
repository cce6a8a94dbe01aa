-- ===== src/History.antt =====
-- The search in the history of a branch: src/daemon/rpmostreed-utils.cxx.
pub mod Pull
pub mod Lookup
pub mod Batch
pub mod PullLaws
pub mod LookupLaws
