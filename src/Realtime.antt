-- ===== src/Realtime.antt =====
-- app/interview/realtime/: the WebSocket connections of the submissions.
mod Connections
mod Replacement
mod Tests
