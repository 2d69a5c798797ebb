-- ===== src/Auth.antt =====
-- app/auth/: accounts, access tokens and refresh tokens.
pub mod Model
mod Tokens
mod Service
mod Refresh
mod Overlap
mod Rotation
mod Revocation
mod Entry
mod Validity
mod Registration
mod Enrolment
mod Unary
mod Tests
mod Requests
mod Admission
pub mod Permissions
pub mod Isolation
