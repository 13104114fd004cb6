-- ===== src/Store.antt =====
-- backend/internal/store: the data access layer. The tables are lists of rows, and the queries of
-- backend/internal/store/sqlcgen are functions on them.
pub mod Types
pub mod Tables
pub mod Audit
pub mod Depth
pub mod Grants
pub mod Requests
pub mod Facts
pub mod Diffs
pub mod Listing
pub mod History
pub mod Fixtures
mod Tests
