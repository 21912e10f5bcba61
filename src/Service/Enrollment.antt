-- ===== src/Service/Enrollment.antt =====
-- internal/service/enrollment.go: the use cases on seats (Claim, Drop, Promotion, Lookup), and what they
-- keep, grant and answer.
pub mod Claim
pub mod Drop
pub mod Promotion
pub mod Lookup
pub mod Reads
pub mod Effects
pub mod Claims
pub mod Grants
pub mod Moves
pub mod Counters
pub mod Drops
pub mod Promotions
pub mod Histories
pub mod Retries
pub mod Visibility
