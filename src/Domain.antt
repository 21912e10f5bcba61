-- ===== src/Domain.antt =====
-- internal/domain, a module for each file.
pub mod Errors
pub mod Identity
pub mod Query
pub mod Catalog
pub mod Registration
pub mod Enrollment
pub mod Job
pub mod Audit
