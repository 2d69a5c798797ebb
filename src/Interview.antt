-- ===== src/Interview.antt =====
-- The interview while it runs: app/interview/exchanges/ and app/interview/orchestration/.
pub mod Exchanges
pub mod Orchestration
pub mod Clarification
mod Tests
mod Examples
