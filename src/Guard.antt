-- ===== src/Guard.antt =====
-- The guard of conversations: conversation-guard/conversation-guard.service.ts.
pub mod Keys
pub mod Redis
mod Memory
pub mod Content
pub mod Quota
pub mod Inspect
mod Writes
pub mod Runs
pub mod Marks
pub mod Counters
pub mod Quotas
mod Tests
