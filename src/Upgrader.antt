-- ===== src/Upgrader.antt =====
-- The sysroot upgrader: src/daemon/rpmostree-sysroot-upgrader.cxx.
pub mod PullBase
pub mod PullBaseLaws
pub mod Env
pub mod Overrides
pub mod Layering
pub mod Deploy
pub mod LayeringLaws
pub mod AssemblyLaws
pub mod DeployLaws
