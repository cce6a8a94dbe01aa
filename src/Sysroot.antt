-- ===== src/Sysroot.antt =====
-- The list of deployments, src/daemon/rpmostree-sysroot-core.cxx.
pub mod Deployments
