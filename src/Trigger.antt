-- ===== src/Trigger.antt =====
-- common/include/trigger.hpp.
pub mod Types
pub mod Immediate
pub mod ByName
pub mod ByBatchSize
pub mod BySet
pub mod Redundant
pub mod DynamicGroup
pub mod ByTime
pub mod Dispatch
pub mod Primitives
mod Tests
