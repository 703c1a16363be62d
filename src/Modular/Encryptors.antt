-- ===== src/Modular/Encryptors.antt =====
-- The encryptors and keyrings of crates/pipeline/src/lib.rs.
use space.Prelude.{
  ℕ, Option, none, some, Result, ok, Exec, ◌>>=◌, ◌>>◌, pure, gets, lift, replicate, not, [],
  if◌then◌else◌,
}
use space.Common.{Bytes, SegmentId, CapsuleId, EncryptionPolicy, disabled, xts_aes256, is_enabled}
use space.Keys.{XtsKeyPair, KeyManager, Hashes, get_key, rotate}
use space.Pipeline.Services.{EncryptionMetadata}
use space.Encryption.Policy.{set_integrity_tag}
use space.Encryption.Xts.{Xts, encrypt_segment, derive_tweak_from_hash}
use space.Encryption.Mac.{Blake3, compute_mac}

-- The names of the algorithms are left out.
pub record EncryptionSummary : Type 0 where
  pub key_version : Option ℕ
  pub encryption_version : Option ℕ
  pub mac : Option Bytes
  pub tweak_nonce : Option Bytes
  pub integrity_tag : Option Bytes

abbrev pub new_summary : EncryptionSummary
new_summary = record {
  key_version = none;
  encryption_version = none;
  mac = none;
  tweak_nonce = none;
  integrity_tag = none;
}

pub record Encryptor : Type 0 where
  pub encrypt_payload : Bytes → EncryptionPolicy → SegmentId → Result (Bytes × EncryptionSummary)
  pub decrypt_payload : Bytes → EncryptionPolicy → SegmentId → Result Bytes
  pub payload_mac : Bytes → SegmentId → Result Bytes
  pub check_mac : Bytes → Bytes → SegmentId → Result (Unit {0})

abbrev pub noop_encryptor : Encryptor
noop_encryptor = record {
  encrypt_payload = λ payload policy id. ok (payload, new_summary);
  decrypt_payload = λ payload policy id. ok payload;
  payload_mac = λ payload id. ok [];
  check_mac = λ payload mac id. ok tt;
}

abbrev pub requested_version : EncryptionPolicy → Option ℕ
requested_version disabled = none
requested_version (xts_aes256 version) = version

abbrev pub version_or : ℕ → Option ℕ → ℕ
version_or current none = current
version_or current (some version) = version

abbrev pub summary_of : EncryptionMetadata → EncryptionSummary
summary_of meta = record {
  key_version = meta.key_version;
  encryption_version = meta.encryption_version;
  mac = meta.integrity_tag;
  tweak_nonce = meta.tweak_nonce;
  integrity_tag = meta.integrity_tag;
}

module _ (h : Hashes) (b3 : Blake3) (x : Xts) where
  unfoldable pub acquire_key : Option ℕ → Exec KeyManager (ℕ × XtsKeyPair)
  acquire_key requested = do
    current ← gets (λ m. m.current_version)
    pair ← get_key h (version_or current requested)
    pure (version_or current requested, pair)

  unfoldable pub xts_encrypt :
      Bytes → EncryptionPolicy → Exec KeyManager (Bytes × EncryptionSummary)
  unfolding acquire_key set_integrity_tag
  xts_encrypt payload policy = if not (is_enabled policy) then pure (payload, new_summary) else do
    key ← acquire_key (requested_version policy)
    out ← lift (encrypt_segment x payload key.1 key.0 (derive_tweak_from_hash (b3.hash payload)))
    tag ← lift (compute_mac b3 out.0 out.1 key.1.key1 key.1.key2)
    pure (out.0, summary_of (set_integrity_tag tag out.1))

  -- `XtsEncryptor` over a key manager in one state; `decrypt` is a placeholder in the code.
  unfoldable pub xts_encryptor : KeyManager → Encryptor
  xts_encryptor m = record {
    encrypt_payload = λ payload policy id. (xts_encrypt payload policy m).0;
    decrypt_payload = λ payload policy id. ok payload;
    payload_mac = λ payload id. ok (b3.hash payload);
    check_mac = λ payload mac id. ok tt;
  }

  -- `KeyManagerKeyring`.
  unfoldable pub keyring_derive_key : CapsuleId → SegmentId → Exec KeyManager Bytes
  keyring_derive_key capsule id = do
    version ← gets (λ m. m.current_version)
    pair ← get_key h version
    pure pair.key1

  unfoldable pub keyring_rotate_key : CapsuleId → Exec KeyManager (Unit {0})
  keyring_rotate_key capsule = do rotate h; pure tt

-- `NullKeyring`.
abbrev pub null_derive_key : CapsuleId → SegmentId → Result Bytes
null_derive_key capsule id = ok (replicate 32 0)
