-- ===== src/Encryption.antt =====
-- crates/encryption/src: policy.rs, xts.rs and mac.rs, with the way pipeline.rs puts them together
-- to seal and to open a segment. keymanager.rs stands in `Keys`.
pub mod Policy
pub mod Xts
pub mod Mac
pub mod Segments
