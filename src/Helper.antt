-- ===== src/Helper.antt =====
-- comm_helper.hpp: how the scheduler talks to coordinators and to other nodes.
pub mod Types
pub mod Updates
pub mod Executors
pub mod Threads
pub mod Mirror
pub mod Calls
pub mod Objects
pub mod Forwarded
mod Tests
