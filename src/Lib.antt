-- ===== src/Lib.antt =====
-- The SPACE storage fabric, translated from its Rust sources and proved correct where it is.
--
-- A capsule is a byte sequence that `WritePipeline` (crates/capsule-registry/src/pipeline.rs)
-- cuts into chunks. Each chunk is compressed (crates/compression), hashed, sealed when the
-- policy asks for it (crates/encryption), and stored in the log (crates/nvram-sim) unless the
-- content store of the registry (crates/capsule-registry/src/lib.rs) already names a segment
-- with that hash. Reading walks the capsule's segments back through the same stages, deleting
-- gives their references back, and reconciling recomputes the references from the registry.
--
-- The files, and the code that each is about:
-- - Common, Presets: crates/common/src/lib.rs and policy.rs, the shared records and the named
--   policies. `f32` knobs and the fields of the feature `podms` are left out.
-- - Disk, Nvram, Nvram/Transaction: crates/nvram-sim/src/lib.rs. `NvramLog` is its data file,
--   segment map and next offset, with the map as last saved; the argument `Io` says which file
--   operation of a call fails. `Active` is a log with an open transaction. Nvram/Layout,
--   Nvram/Refcounts and the files below Nvram/Transaction hold the proofs.
-- - Registry: `CapsuleRegistry`, its maps and the state as last saved. Gc: crates/capsule-
--   registry/src/gc.rs and `World`, the registry and the log together.
-- - Compression: crates/compression/src/lib.rs over the parameter `Codec`, which stands for the
--   crates lz4 and zstd and the entropy test; Compression/Integrity its proofs.
-- - Pipeline/Services, Write, Read, Release, Reconcile: the synchronous `WritePipeline`.
--   `Services` stands for the codecs, BLAKE3 and the encryption crate.
-- - Refcounts and the files below: the invariant `IsCounted`, that every segment's reference
--   count is the number of places where capsules list it, and what each operation does to it.
--   Content and the files below: what segments and capsules read back as.
-- - Keys, Keys/Available: crates/encryption/src/keymanager.rs, over the parameter `Hashes` for
--   HMAC-SHA256 and BLAKE3. `expand_blocks` runs on three rounds of fuel, enough since a block
--   has 32 bytes and a key 64 (`derive-length`).
-- - Block, Block/Create, Block/Overwrite: crates/protocol-block/src/lib.rs. `write` is `claim`,
--   `rewrite_capsule` and `publish`, the parts that hold the lock being the first and the last.
-- - Nfs, Nfs/Canonical: crates/protocol-nfs/src/lib.rs, its paths as lists of character codes;
--   Nfs/Namespace, Nfs/Namespace/Files: `NfsView` and its files.
-- - Encryption, Encryption/Policy, Encryption/Xts, Encryption/Mac:
--   crates/encryption/src/policy.rs, xts.rs and mac.rs, over the parameters `Xts` for the sector
--   cipher and `Blake3`; Encryption/Segments: how crates/capsule-registry/src/pipeline.rs seals
--   and opens a segment with them and with the key manager, as an instance of the `Services` of
--   the write pipeline.
-- - Layout, Layout/Placing, Layout/Cover: crates/layout-engine/src, default features.
-- - Storage, Storage/Laws, Storage/Memory, Storage/Persistent: the interface of storage backends
--   (crates/common/src/traits.rs), its laws, and the two backends of crates/storage/src/lib.rs.
-- - Modular, Modular/Catalog, Modular/Encryptors, Modular/Write, Modular/Read and the proofs
--   beside them: crates/pipeline/src/lib.rs and crates/dedup/src/lib.rs, over any storage
--   backend.
-- - Scaling, Scaling/Compile, Scaling/Targets, Scaling/Evacuation, Scaling/Rebalancing,
--   Scaling/Selection, Scaling/Projection, Scaling/Lawful, Scaling/Sovereignty:
--   crates/scaling/src/compiler.rs and what crates/scaling/src/agent.rs calls it with; floating-
--   point numbers are the parameter `Floats`.
-- - Audit, Audit/Chain: crates/common/src/security/audit_log.rs.
-- - S3, S3/Objects: crates/protocol-s3/src/lib.rs, the objects of `S3View`.
-- - Pipeline/Async and the files below: `write_capsule_with_policy_async` of the feature
--   pipeline_async. The tasks are the list of what they prepared, the channel the list of what
--   arrives; `drain` runs on fuel, the number of segments, which is enough since each round
--   moves to the next one (`drain_fuel`).
-- - Prelude: names, Boolean tests, lists, association maps and the state-and-error monad.
--   Examples: runs on concrete values.
--
-- A `HashMap` is an association list with distinct keys. A `u32` or `u64` is a natural number,
-- and each addition keeps the wrap-around of a release build, except where the source saturates.
-- Locks make every method atomic, so a state is passed from call to call. The loop over
-- `data.chunks` runs on fuel, the length of the data, which is enough since each chunk takes at
-- least one byte (`joined-chunks` of Content/Chunks). Pipelines run with metadata files that can
-- be written (`fine`); the failures of the log itself are modelled in Nvram.
--
-- Not modelled: the features advanced-security and podms outside the policy compiler, the
-- servers of the network front ends, the simulators, the command line, and the vendored servers.
mod Prelude
pub mod Common
pub mod Presets
pub mod Disk
pub mod Nvram
pub mod Registry
pub mod Compression
pub mod Gc
pub mod Pipeline
pub mod Keys
pub mod Encryption
pub mod Layout
pub mod Storage
pub mod Modular
pub mod S3
pub mod Scaling
pub mod Audit
pub mod Refcounts
pub mod Content
pub mod Block
pub mod Nfs
mod Examples
