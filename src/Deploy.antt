-- ===== src/Deploy.antt =====
-- The transaction that makes a new deployment: deploy_transaction_execute of
-- src/daemon/rpmostreed-transaction-types.cxx, and what it calls in that file.
pub mod Request
pub mod Fds
pub mod FdsLaws
pub mod Check
pub mod CheckLaws
pub mod Finish
pub mod FinishLaws
pub mod Refspec
pub mod RefspecParse
pub mod RefspecLaws
pub mod Message
pub mod Title
pub mod Origin
pub mod Overrides
pub mod Env
pub mod Target
pub mod Edit
pub mod Replace
pub mod Execute
pub mod EditLaws
pub mod ReplaceLaws
pub mod ExecuteLaws
pub mod InertLaws
pub mod AutoUpdate
pub mod AutoUpdateLaws
