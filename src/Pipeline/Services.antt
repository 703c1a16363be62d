-- ===== src/Pipeline/Services.antt =====
-- What `WritePipeline` is built over, and the statistics of a write
-- (crates/common/src/traits.rs, `DedupStats`).
use space.Prelude.{ℕ, ◌+◌, ◌%◌, Bool, Option, Result, nat_eq, if◌then◌else◌}
use space.Common.{Bytes, ContentHash, u64_mod}
use space.Compression.{Codec}

pub record EncryptionMetadata : Type 0 where
  pub encryption_version : Option ℕ
  pub key_version : Option ℕ
  pub tweak_nonce : Option Bytes
  pub integrity_tag : Option Bytes
  pub ciphertext_len : Option ℕ

-- What the pipeline is built over: the codecs, BLAKE3, and the encryption crate. `seal` is
-- `current_version`, `get_key`, `derive_tweak_from_hash`, `encrypt_segment` and `compute_mac`;
-- `unseal` is `get_key`, `verify_mac` and `decrypt_segment`.
pub record Services : Type 0 where
  pub codec : Codec
  pub hash_content : Bytes → ContentHash
  pub has_keys : Bool
  pub seal : ContentHash → Bytes → Result (Bytes × EncryptionMetadata)
  pub unseal : Bytes → EncryptionMetadata → Result Bytes

pub record DedupStats : Type 0 where
  pub total_segments : ℕ
  pub deduped_segments : ℕ
  pub bytes_saved : ℕ

abbrev pub no_stats : DedupStats
no_stats = record { total_segments = 0; deduped_segments = 0; bytes_saved = 0 }

unfoldable pub record_segment : ℕ → Bool → DedupStats → DedupStats
record_segment len was_deduped s =
    if was_deduped
    then record {
      total_segments = s.total_segments + 1;
      deduped_segments = s.deduped_segments + 1;
      bytes_saved = (s.bytes_saved + len) % u64_mod;
    }
    else record s { total_segments = s.total_segments + 1 }
