-- ===== src/Runner.antt =====
-- superstructure/coordinator/base.rs: the runner that the library itself provides.
pub mod Status
pub mod Retry
pub mod Tracker
