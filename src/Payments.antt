-- ===== src/Payments.antt =====
-- hermes-backend/src/payments: payments by bank transfer.
pub mod Policy
pub mod Transfer
pub mod Instructions
pub mod Review
pub mod Proof
pub mod Lifecycle
pub mod Steps
pub mod Approval
pub mod Decision
pub mod Runs
pub mod Reach
pub mod Course
pub mod Recording
mod Tests
