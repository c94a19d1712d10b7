-- ===== src/Web.antt =====
-- web: the pages, the paths, the middleware and the proxies in front of the API.
pub mod RunStatus
pub mod Preferences
pub mod Filters
pub mod Paths
pub mod Middleware
pub mod Proxy
pub mod Clients
mod Examples
