-- ===== src/Broker.antt =====
-- backend/internal/broker: brokerd, which signs git commits under capability grants.
pub mod Cache
pub mod RateLimit
pub mod Commit
pub mod Sshsig
pub mod Signing
mod Tests
