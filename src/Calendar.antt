-- ===== src/Calendar.antt =====
-- The free times for meetings: integrations/google-calendar/slot-engine.ts.
pub mod Slots
pub mod Grid
pub mod Days
pub mod Offered
pub mod Free
pub mod Search
mod Tests
