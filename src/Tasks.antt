-- ===== src/Tasks.antt =====
-- The tasks of the CRM: tasks/tasks.service.ts.
pub mod Requests
mod Joining
pub mod Again
mod Tests
