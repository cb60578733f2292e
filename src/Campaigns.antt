-- ===== src/Campaigns.antt =====
-- Campaigns of template messages: campaigns/campaigns.service.ts, from `start` on.
pub mod Send
pub mod Status
pub mod Control
pub mod Phone
pub mod Import
pub mod Summary
pub mod Imported
pub mod Final
mod Keeps
pub mod Once
pub mod Life
pub mod Progress
pub mod Completion
pub mod Calls
mod Tests
