-- ===== src/Identity.antt =====
-- shared/bazos/identity/bazos-identity.service.ts, by its parts.
pub mod Input
pub mod Envelope
pub mod Record
pub mod Sessions
pub mod Accounts
pub mod Verified
pub mod Calls
pub mod Challenge
mod Tests
