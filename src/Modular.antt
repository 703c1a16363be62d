-- ===== src/Modular.antt =====
-- crates/pipeline/src/lib.rs and crates/dedup/src/lib.rs: the pipeline that is put together from
-- exchangeable parts.
pub mod Catalog
pub mod Encryptors
pub mod Write
pub mod Read
pub mod Sharing
pub mod Reading
pub mod Storing
pub mod Zones
pub mod RoundTrip
