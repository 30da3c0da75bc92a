-- ===== src/Dataflow.antt =====
-- dataflow: the service that keeps migration plans and starts their jobs.
pub mod Types
pub mod Lock
pub mod Run
pub mod Connectors
pub mod Driver
pub mod Triggers
pub mod Updates
pub mod Plans
pub mod Convert
pub mod Scheduler
pub mod Policies
pub mod Handlers
mod Tests
