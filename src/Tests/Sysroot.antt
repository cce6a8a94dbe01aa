-- ===== src/Tests/Sysroot.antt =====
-- The filter of deployments, src/daemon/rpmostree-sysroot-core.cxx, on concrete lists.
use rpm_ostree.Prelude.{true, false}
use rpm_ostree.Prelude.Text.{Text, codes}
use rpm_ostree.Sysroot.Deployments.{Deployment}

abbrev fedora : Text
fedora = codes "fedora"

abbrev pending : Deployment
pending = record {
  id = 2;
  osname = fedora;
  pinned = false;
  staged = false;
  finalization_locked = false;
}

abbrev booted : Deployment
booted = record {
  id = 1;
  osname = fedora;
  pinned = false;
  staged = false;
  finalization_locked = false;
}

abbrev rollback : Deployment
rollback = record {
  id = 0;
  osname = fedora;
  pinned = true;
  staged = false;
  finalization_locked = false;
}
