-- ===== src/Encryption/Policy.antt =====
-- crates/encryption/src/policy.rs: the metadata of an encrypted segment and the statistics. The
-- policy itself is the one of crates/common.
use space.Prelude.{
  ℕ, ◌+◌, Bool, false, true, Option, none, some, Result, missing_integrity_tag, not_encrypted,
  corrupted_metadata, or_err, Map, insert, [], nat_eq, ltb, ◌%◌,
}
use space.Common.{Bytes, u64_mod}
use space.Pipeline.Services.{EncryptionMetadata}

unfoldable pub is_some {ℓ} : {A : Type ℓ} → Option A → Bool
is_some none = false
is_some (some a) = true

unfoldable pub new_xts : ℕ → Bytes → ℕ → EncryptionMetadata
new_xts key_version tweak ciphertext_len = record {
  encryption_version = some 1;
  key_version = some key_version;
  tweak_nonce = some tweak;
  integrity_tag = none;
  ciphertext_len = some ciphertext_len;
}

abbrev pub new_unencrypted : EncryptionMetadata
new_unencrypted = record {
  encryption_version = none;
  key_version = none;
  tweak_nonce = none;
  integrity_tag = none;
  ciphertext_len = none;
}

unfoldable pub is_encrypted : EncryptionMetadata → Bool
unfolding is_some
is_encrypted meta = is_some meta.encryption_version

unfoldable pub has_integrity_tag : EncryptionMetadata → Bool
unfolding is_some
has_integrity_tag meta = is_some meta.integrity_tag

unfoldable pub set_integrity_tag : Bytes → EncryptionMetadata → EncryptionMetadata
set_integrity_tag tag meta = record meta { integrity_tag = some tag }

abbrev pub require_version : EncryptionMetadata → Result ℕ
require_version meta = or_err not_encrypted meta.encryption_version

abbrev pub require_key_version : EncryptionMetadata → Result ℕ
require_key_version meta = or_err not_encrypted meta.key_version

-- The callers replace the text of the error by the one that stands here.
abbrev pub require_tweak : EncryptionMetadata → Result Bytes
require_tweak meta = or_err corrupted_metadata meta.tweak_nonce

abbrev pub require_integrity_tag : EncryptionMetadata → Result Bytes
require_integrity_tag meta = or_err missing_integrity_tag meta.integrity_tag

-- `EncryptionStats`, its counters of 64 bits; `key_versions_used` is a set.
pub record EncryptionStats : Type 0 where
  pub encrypted_segments : ℕ
  pub unencrypted_segments : ℕ
  pub total_ciphertext_bytes : ℕ
  pub key_versions_used : Map ℕ (Unit {0})

abbrev pub new_stats : EncryptionStats
new_stats = record {
  encrypted_segments = 0;
  unencrypted_segments = 0;
  total_ciphertext_bytes = 0;
  key_versions_used = [];
}

unfoldable pub add_encrypted : ℕ → ℕ → EncryptionStats → EncryptionStats
add_encrypted key_version bytes s = record s {
  encrypted_segments = (s.encrypted_segments + 1) % u64_mod;
  total_ciphertext_bytes = (s.total_ciphertext_bytes + bytes) % u64_mod;
  key_versions_used = insert key_version tt s.key_versions_used;
}

unfoldable pub add_unencrypted : EncryptionStats → EncryptionStats
add_unencrypted s = record s { unencrypted_segments = (s.unencrypted_segments + 1) % u64_mod }

abbrev pub total_segments : EncryptionStats → ℕ
total_segments s = (s.encrypted_segments + s.unencrypted_segments) % u64_mod

abbrev pub has_encrypted_data : EncryptionStats → Bool
has_encrypted_data s = ltb 0 s.encrypted_segments
