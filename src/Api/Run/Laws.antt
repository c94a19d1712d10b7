-- ===== src/Api/Run/Laws.antt =====
-- The requests of workers and users of api/src in the light of the invariant.
pub mod Ends
pub mod Reported
pub mod Attempts
pub mod Lost
