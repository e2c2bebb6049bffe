-- ===== src/Runtime.antt =====
-- crates/gitility-core/src/runtime: bounded asynchronous execution.
pub mod ThreadBudget
mod Tests
pub mod Job
pub mod Jobs
pub mod Shared
pub mod Admission
pub mod Threads
