-- ===== src/Handoffs.antt =====
-- Human handoffs: the conversations that an agent takes over from the bot.
-- hermes-backend/src/handoff/handoff.service.ts.
pub mod Create
pub mod Attend
pub mod Invariant
pub mod Opening
pub mod Single
pub mod Agents
mod Tests
