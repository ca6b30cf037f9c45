-- ===== src/Scheduler.antt =====
-- scheduler_server.cpp and object_handlers.cpp: the local scheduler of a node.
pub mod Types
pub mod Statuses
pub mod Forward
pub mod Schedule
pub mod Arrivals
pub mod Objects
pub mod Executors
pub mod Responses
pub mod Queues
pub mod Step
mod Tests
pub mod Credit
pub mod Delayed
pub mod Reruns
pub mod Choice
pub mod Fetching
pub mod Overflow
