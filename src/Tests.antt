-- ===== src/Tests.antt =====
-- The theorems at concrete inputs.
mod World
mod Rules
mod Statements
mod UseCases
mod Accounts
mod Records
mod Setup
mod Queue
