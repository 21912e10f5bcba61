-- ===== src/Storage.antt =====
-- internal/storage/sqlite: the tables, the statements on them, and transactions.
pub mod Timestamps
pub mod Db
pub mod Rules
pub mod Rows
pub mod Listing
pub mod Catalog
pub mod Enrollments
pub mod Registrations
pub mod Jobs
pub mod Users
pub mod Sessions
pub mod Audit
pub mod Migrations
pub mod Idempotency
pub mod Transactions
pub mod Consistency
