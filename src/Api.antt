-- ===== src/Api.antt =====
-- The API service (services/api/app).
pub mod StateMachine
pub mod Models
pub mod Jobs
pub mod Leases
pub mod Run
pub mod Worker
pub mod Feedback
