-- ===== src/Interview/Clarification.antt =====
-- app/interview/exchanges/question_state_machine.py and clarification_policy.py.
mod Machine
mod Budget
mod Policy
mod Audit
mod Tests
