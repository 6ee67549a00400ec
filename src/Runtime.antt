-- ===== src/Runtime.antt =====
-- ssat/core/runtime: how work is prepared for inference.
pub mod Transfer
pub mod Worker
pub mod Validate
pub mod Accounts
pub mod Distinct
pub mod Accepted
pub mod Prepared
pub mod Items
pub mod Failures
pub mod Normalize
pub mod Environment
pub mod Run
pub mod Execution
pub mod Audit
