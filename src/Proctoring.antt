-- ===== src/Proctoring.antt =====
-- app/proctoring/rules/: how severe an event is.
mod Rules
mod Escalation
mod Tests
