-- ===== src/Publisher.antt =====
-- shared/bazos/publisher/bazos-publisher-queue.service.ts: the queue of publish attempts.
pub mod Options
pub mod Queue
pub mod Claim
pub mod Record
pub mod Asked
pub mod Claimed
pub mod Handout
pub mod Cooldown
pub mod Once
pub mod Queued
pub mod Stopped
mod Tests
mod ResultTests
