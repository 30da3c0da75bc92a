-- ===== src/Datamover.antt =====
-- datamover: the service that runs migration jobs.
pub mod Types
pub mod Movers
pub mod Parts
pub mod Settings
pub mod Move
pub mod Job
pub mod Sources
pub mod Collect
pub mod RunJob
pub mod Messages
pub mod Routines
mod Tests
