-- ===== src/Daemon.antt =====
-- The daemon, src/daemon/.
pub mod Objects
pub mod Sysroot
pub mod Transaction
pub mod Lifecycle
pub mod Events
pub mod Invariant
pub mod Preserve
pub mod Start
pub mod Safety
pub mod Progress
pub mod Output
pub mod Status
pub mod StatusLaws
pub mod Authorize
pub mod AuthorizeLaws
