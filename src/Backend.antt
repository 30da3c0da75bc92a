-- ===== src/Backend.antt =====
-- backend: the service that keeps the registered clouds.
pub mod Types
pub mod Driver
pub mod Service
pub mod Pages
pub mod Kept
mod Tests
