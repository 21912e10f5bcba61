-- ===== src/Service.antt =====
-- internal/service: the use cases over the tables.
pub mod Rejections
pub mod Registration
pub mod Enrollment
pub mod Batch
pub mod Auth
pub mod Idempotency
pub mod Catalog
