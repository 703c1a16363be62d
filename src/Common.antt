-- ===== src/Common.antt =====
-- crates/common/src/lib.rs and crates/common/src/policy.rs: the data that every crate shares.
-- `f32` knobs (`heat_threshold`) are left out; integers are the native numbers.
use space.Prelude.{
  ℕ, ◌+◌, ◌-◌, ◌^◌, ◌*◌, String, Bool, true, false, Option, List, ltb, ℤ, if◌then◌else◌,
}

abbrev pub Bytes : Type 0
Bytes = List ℕ

abbrev pub SegmentId : Type 0
SegmentId = ℕ

abbrev pub CapsuleId : Type 0
CapsuleId = ℕ

-- The hexadecimal text, as its bytes.
abbrev pub ContentHash : Type 0
ContentHash = List ℕ

abbrev pub segment_size : ℕ
segment_size = 4 * 1024 * 1024

abbrev pub u32_mod : ℕ
u32_mod = 2 ^ 32

abbrev pub u64_mod : ℕ
u64_mod = 2 ^ 64

-- `u32::saturating_add(1)` on a value in range.
abbrev pub saturating_inc : ℕ → ℕ
saturating_inc n = if ltb (n + 1) u32_mod then n + 1 else n

pub data CompressionPolicy : Type 0 where
  uncompressed : CompressionPolicy
  lz4 zstd : ℤ → CompressionPolicy

-- The texts "none", "identity", "lz4:<level>" and "zstd:<level>".
pub data Algorithm : Type 0 where
  no_algorithm identity : Algorithm
  lz4_level zstd_level : ℤ → Algorithm

pub data EncryptionPolicy : Type 0 where
  disabled : EncryptionPolicy
  xts_aes256 : Option ℕ → EncryptionPolicy

unfoldable pub is_enabled : EncryptionPolicy → Bool
is_enabled disabled = false
is_enabled (xts_aes256 v) = true

pub data CryptoProfile : Type 0 where
  classical hybrid_kyber : CryptoProfile

pub data MerkleAlgo : Type 0 where
  blake3 sphincs_plus : MerkleAlgo

-- A segment size, then a zone size in MiB with a graph radius.
pub data LayoutStrategy : Type 0 where
  fixed : ℕ → LayoutStrategy
  adaptive_entropy : LayoutStrategy
  zns_graph : ℕ → ℕ → LayoutStrategy
  learned : String → LayoutStrategy
  quantum_ready : MerkleAlgo → LayoutStrategy

pub record LayoutPolicy : Type 0 where
  pub strategy : LayoutStrategy
  pub ec_profile : ℕ × ℕ

abbrev pub default_layout : LayoutPolicy
default_layout = record { strategy = fixed (4 * 1024 * 1024); ec_profile = (6, 2) }

-- `saturating_mul` of `usize`.
unfoldable pub default_segment_size : LayoutStrategy → ℕ
default_segment_size (fixed size) = size
default_segment_size adaptive_entropy = 4 * 1024 * 1024
default_segment_size (zns_graph zone_size_mib radius) =
    let size = zone_size_mib * (1024 * 1024) in if ltb size u64_mod then size else u64_mod - 1
default_segment_size (learned path) = 4 * 1024 * 1024
default_segment_size (quantum_ready algo) = 4 * 1024 * 1024

pub record Policy : Type 0 where
  pub compression : CompressionPolicy
  pub dedupe : Bool
  pub compact_interval_secs : Option ℕ
  pub erasure_profile : Option String
  pub encryption : EncryptionPolicy
  pub crypto_profile : CryptoProfile
  pub layout : LayoutPolicy

pub record Capsule : Type 0 where
  pub id : CapsuleId
  pub size : ℕ
  pub segments : List SegmentId
  pub created_at : ℕ
  pub policy : Policy
  pub deduped_bytes : ℕ

pub record Segment : Type 0 where
  pub id : SegmentId
  pub offset : ℕ
  pub len : ℕ
  pub compressed : Bool
  pub compression_algo : Algorithm
  pub content_hash : Option ContentHash
  pub ref_count : ℕ
  pub deduplicated : Bool
  pub access_count : ℕ
  pub encryption_version : Option ℕ
  pub key_version : Option ℕ
  pub tweak_nonce : Option Bytes
  pub integrity_tag : Option Bytes
  pub encrypted : Bool
  pub pq_ciphertext : Option String
  pub pq_nonce : Option Bytes
