-- ===== src/Turns.antt =====
-- Inbound turns: the messages of a contact that are answered together, and the claims of the
-- workers that answer them. hermes-backend/src/auto-replies/inbound-turn.service.ts and
-- inbound-turn-recovery.service.ts.
pub mod Schedule
pub mod Claim
pub mod Reach
pub mod Taking
pub mod Deadline
pub mod Lease
pub mod Recovery
pub mod Timing
mod Tests
