-- ===== src/Api.antt =====
-- internal/api: the HTTP client, which sends what it was given, reads what came back, and resends
-- what may be resent.
pub mod Duration
pub mod Meta
pub mod Routes
pub mod Target
pub mod Envelope
pub mod Retry
pub mod Client
mod Tests
