-- ===== src/S3.antt =====
-- s3: the service that keeps the buckets and the metadata of the objects.
pub mod Types
pub mod Driver
pub mod Service
pub mod Kept
mod Tests
