-- ===== src/Interview/Orchestration.antt =====
-- app/interview/orchestration/: which question comes next, and what an answer changes.
pub mod Sequencer
pub mod Traversal
pub mod Attempts
pub mod Advance
pub mod Progress
pub mod Signals
pub mod Coordinator
pub mod Reporting
pub mod Answering
pub mod Answers
