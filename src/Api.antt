-- ===== src/Api.antt =====
-- api/src: the server that owns the runs.
pub mod Cleanup
pub mod Queue
pub mod Validation
pub mod Storage
pub mod Launch
pub mod Permissions
pub mod Run
pub mod Accounts
pub mod Sessions
mod Examples
