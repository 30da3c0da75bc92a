-- ===== src/Datamover/Tests.antt =====
-- datamover: the theorems at concrete objects, jobs and storages.
mod Disk
mod Moves
mod Jobs
mod Runs
mod Messages
