-- ===== src/Pipeline.antt =====
-- crates/capsule-registry/src/pipeline.rs, `WritePipeline` as the default features build it
-- (synchronous, no delegation, no ML-KEM), and below Async the write of the feature pipeline_async.
-- Writes to the log and the metadata files succeed.
pub mod Services
pub mod Reconcile
pub mod Release
pub mod Write
pub mod Read
pub mod Async
