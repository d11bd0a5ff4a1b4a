-- ===== src/Tests.antt =====
-- The test data, and the theorems at concrete inputs.
pub mod Trees
pub mod Data
pub mod Values
pub mod Documents
pub mod Threads
pub mod Answers
pub mod Queries
pub mod Overlap
pub mod Handles
pub mod Questions
pub mod Silent
pub mod Waits
pub mod Wakeups
pub mod Windows
pub mod Live
