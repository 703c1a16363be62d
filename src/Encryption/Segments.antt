-- ===== src/Encryption/Segments.antt =====
-- How `write_capsule_with_policy` seals a chunk and `read_capsule` opens a segment
-- (crates/capsule-registry/src/pipeline.rs), over the key manager and the encryption crate.
pub mod Opening
use space.Prelude.{
  ℕ, true, Option, some, Result, or_err, missing_key_version, Exec, ◌>>=◌, ◌>>◌, pure, gets, lift,
}
use space.Common.{Bytes, ContentHash}
use space.Compression.{Codec}
use space.Keys.{XtsKeyPair, KeyManager, Hashes, get_key}
use space.Pipeline.Services.{EncryptionMetadata, Services}
use space.Encryption.Policy.{set_integrity_tag}
use space.Encryption.Xts.{Xts, encrypt_segment, decrypt_segment, derive_tweak_from_hash}
use space.Encryption.Mac.{Blake3, compute_mac, verify_mac}

module _ (h : Hashes) (b3 : Blake3) (x : Xts) where
  -- `content_hash.as_str().as_bytes()`: the tweak comes from the hexadecimal text.
  unfoldable pub seal_segment : ContentHash → Bytes → Exec KeyManager (Bytes × EncryptionMetadata)
  unfolding set_integrity_tag
  seal_segment content_hash compressed = do
    key_version ← gets (λ m. m.current_version)
    pair ← get_key h key_version
    out ← lift (encrypt_segment x compressed pair key_version (derive_tweak_from_hash content_hash))
    tag ← lift (compute_mac b3 out.0 out.1 pair.key1 pair.key2)
    pure (out.0, set_integrity_tag tag out.1)

  unfoldable pub open_segment : Bytes → EncryptionMetadata → Exec KeyManager Bytes
  open_segment raw meta = do
    key_version ← lift (or_err missing_key_version meta.key_version)
    pair ← get_key h key_version
    lift (verify_mac b3 raw meta pair.key1 pair.key2)
    lift (decrypt_segment x raw pair meta)

  -- A pipeline with a key manager in state `m` for what it seals, and in state `later` for what it
  -- opens.
  unfoldable pub services_of : Codec → (Bytes → ContentHash) → KeyManager → KeyManager → Services
  services_of codec hash m later = record {
    codec = codec;
    hash_content = hash;
    has_keys = true;
    seal = λ content_hash compressed. (seal_segment content_hash compressed m).0;
    unseal = λ raw meta. (open_segment raw meta later).0;
  }
