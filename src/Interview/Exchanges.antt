-- ===== src/Interview/Exchanges.antt =====
-- app/interview/exchanges/: the immutable record of one question and its answer.
pub mod Model
pub mod Validators
pub mod Repository
pub mod Contiguity
