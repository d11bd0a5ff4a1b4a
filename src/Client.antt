-- ===== src/Client.antt =====
-- `UnleashClient` of unleashClient.hpp and unleashClient.cpp.
pub mod State
pub mod Threads
pub mod Evaluate
pub mod Lifecycle
pub mod Answers
pub mod Overlap
pub mod Waits
