-- ===== src/Coordinator.antt =====
-- The coordinator: src/coordinator and include/coordinator.
pub mod Types
pub mod Directory
pub mod Buckets
pub mod Triggers
pub mod Apps
pub mod Calls
pub mod Notify
pub mod Step
mod Tests
