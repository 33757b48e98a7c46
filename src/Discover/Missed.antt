-- ===== src/Discover/Missed.antt =====
-- A registration (registry.rs) between two cycles of the discover (coordinator.rs).
