-- ===== src/Coding.antt =====
-- app/coding/: the comparison of outputs, the scores and the execution of code submissions.
mod Comparator
mod Lines
mod Agreement
mod Status
mod Store
mod Execution
mod Service
mod Settlement
mod Completion
mod Acceptance
mod Tests
mod Sandbox
mod Forgery
