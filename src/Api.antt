-- ===== src/Api.antt =====
-- backend/internal/api, the HTTP server of the reviewers: who is let in, and what of the credentials
-- each route changes.
pub mod Types
pub mod Factors
pub mod Minting
pub mod Passkeys
pub mod Routes
pub mod Fixtures
mod Tests
