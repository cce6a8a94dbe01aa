-- ===== src/Tests.antt =====
-- Runs of the definitions on concrete inputs.
mod Daemon
mod Core
mod Rpm
mod Util
mod Sysroot
mod PackageDiff
mod Txn
mod Deploy
mod Execute
mod History
mod Upgrader
