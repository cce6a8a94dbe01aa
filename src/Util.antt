-- ===== src/Util.antt =====
-- The shared helpers of src/libpriv/rpmostree-util.cxx.
pub mod Bsearch
pub mod DiffPrint
pub mod Version
