-- ===== src/Delivery.antt =====
-- The ledger of the messages that the program sends by itself:
-- hermes-backend/src/automated-deliveries.
pub mod Eligibility
pub mod Claim
pub mod Settle
pub mod Batch
pub mod Lifecycle
pub mod Evolution
pub mod Progress
pub mod Eligible
pub mod Granted
pub mod Ownership
pub mod Accounting
pub mod Prepare
pub mod Rows
mod Tests
