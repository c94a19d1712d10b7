-- ===== src/Worker.antt =====
-- workers/worker-node/src: the scan worker. One job is one run of `Process`; what it does to the
-- rest of the system is the log of calls of `Exec`.
pub mod Exec
pub mod Limits
pub mod Job
pub mod Lifecycle
pub mod Output
pub mod Control
pub mod Monitor
pub mod Process
pub mod Failure
pub mod Entry
pub mod Config
pub mod Clients
pub mod Scanner
pub mod Examples
