-- ===== src/Leads.antt =====
-- hermes-backend/src/leads: the milestone of a won contract.
pub mod Won
