-- ===== src/Security.antt =====
-- internal/security and internal/platform/ids: password hashes, digests and tokens.
pub mod Decimal
pub mod Words
pub mod Credentials
pub mod Tokens
pub mod Passwords
