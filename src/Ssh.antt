-- ===== src/Ssh.antt =====
-- workers/worker-node/src/sshExecutor.js: the connection to a machine and the scan on it.
pub mod Bits
pub mod Cidr
pub mod Transport
pub mod Context
pub mod Staging
mod Examples
