-- ===== src/Txn.antt =====
-- The execute methods of the transactions, src/daemon/rpmostreed-transaction-types.cxx.
pub mod Effects
pub mod Cleanup
pub mod Rollback
pub mod Inhibitors
pub mod Finalize
pub mod Initramfs
pub mod InitramfsLaws
pub mod InitramfsSet
pub mod KernelArgs
pub mod KernelArgsLaws
pub mod ModifyRepo
