-- ===== src/Session.antt =====
-- The interview session: app/interview/session/.
pub mod Status
pub mod Graph
pub mod Store
pub mod Repository
pub mod Service
pub mod Races
pub mod Cases
pub mod Commands
pub mod StaleReload
pub mod Expiry
pub mod Guarantees
mod Tests
