-- ===== src/Auth.antt =====
-- The credentials of reviewers and agents, in backend/internal/store: bearer tokens, the second
-- factors that reviewers enrol, and the latch that remembers the first enrolment.
pub mod Action
pub mod Types
pub mod Tokens
pub mod AgentTokens
pub mod Passkeys
pub mod Evolution
mod Tests
