-- ===== src/Scheduler.antt =====
-- services/scheduler-orchestrator-service: the job consumer that matches a job to a provider, opens
-- its billing session and dispatches its task, with the job table that it keeps.
pub mod Models
pub mod Details
pub mod Matching
pub mod Extender
pub mod Store
pub mod Consumer
mod Tests
