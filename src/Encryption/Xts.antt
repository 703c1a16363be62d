-- ===== src/Encryption/Xts.antt =====
-- crates/encryption/src/xts.rs. The XTS mode over AES-256 is a parameter; a tweak is 16 bytes.
use space.Prelude.{
  ℕ, ◌-◌, ◌%◌, ◌≤◌, ◌≡◌, Result, ok, err, or_err, map_ok, invalid_ciphertext_length,
  missing_metadata, ◌++◌, ltb, nat_beq, if◌then◌else◌, length, take, replicate,
}
use space.Common.{Bytes, u32_mod}
use space.Keys.{XtsKeyPair}
use space.Pipeline.Services.{EncryptionMetadata}
use space.Encryption.Policy.{new_xts, is_encrypted, require_tweak}

-- `encrypt_sector` and `decrypt_sector` of `Xts128<Aes256>` under a key pair and a tweak.
pub record Xts : Type 0 where
  pub encrypt_sector : XtsKeyPair → Bytes → Bytes → Bytes
  pub decrypt_sector : XtsKeyPair → Bytes → Bytes → Bytes

-- Two AES-256 keys.
pub record IsFull (pair : XtsKeyPair) : Type 0 where
  pub first : length pair.key1 ≡ 32
  pub second : length pair.key2 ≡ 32

-- What XTS with ciphertext stealing does on a sector of at least one block.
pub record XtsLaws (x : Xts) : Type 0 where
  pub inverse :
      (pair : XtsKeyPair) (tweak b : Bytes)
      → IsFull pair
      → length tweak ≡ 16
      → 16 ≤ length b
      → x.decrypt_sector pair tweak (x.encrypt_sector pair tweak b) ≡ b
  pub same_length :
      (pair : XtsKeyPair) (tweak b : Bytes)
      → IsFull pair
      → length tweak ≡ 16
      → 16 ≤ length b
      → length (x.encrypt_sector pair tweak b) ≡ length b

abbrev pub min_sector_size : ℕ
min_sector_size = 16

module _ (x : Xts) where
  unfoldable pub encrypt : Bytes → XtsKeyPair → Bytes → Result Bytes
  encrypt plaintext pair tweak =
      if ltb (length plaintext) min_sector_size
      then err invalid_ciphertext_length
      else ok (x.encrypt_sector pair tweak plaintext)

  unfoldable pub decrypt : Bytes → XtsKeyPair → Bytes → Result Bytes
  decrypt ciphertext pair tweak =
      if ltb (length ciphertext) min_sector_size
      then err invalid_ciphertext_length
      else ok (x.decrypt_sector pair tweak ciphertext)

  unfoldable pub encrypt_segment :
      Bytes → XtsKeyPair → ℕ → Bytes → Result (Bytes × EncryptionMetadata)
  unfolding encrypt new_xts
  encrypt_segment plaintext pair key_version tweak =
      map_ok (λ ciphertext. (ciphertext, new_xts key_version tweak (length ciphertext % u32_mod)))
        (encrypt plaintext pair tweak)

  -- The length is compared before anything is decrypted.
  unfoldable pub decrypt_checked : Bytes → XtsKeyPair → Result Bytes → Result ℕ → Result Bytes
  unfolding decrypt
  decrypt_checked ciphertext pair (err e) expected = err e
  decrypt_checked ciphertext pair (ok tweak) (err e) = err e
  decrypt_checked ciphertext pair (ok tweak) (ok expected_len) =
      if nat_beq (length ciphertext) expected_len
      then decrypt ciphertext pair tweak
      else err invalid_ciphertext_length

  unfoldable pub decrypt_segment : Bytes → XtsKeyPair → EncryptionMetadata → Result Bytes
  unfolding decrypt_checked is_encrypted
  decrypt_segment ciphertext pair meta =
      if is_encrypted meta
      then decrypt_checked ciphertext pair (require_tweak meta)
          (or_err missing_metadata meta.ciphertext_len)
      else err missing_metadata

-- The first 16 bytes of what it is given, with zeros behind them where there are fewer.
unfoldable pub derive_tweak_from_hash : Bytes → Bytes
derive_tweak_from_hash content_hash =
    take 16 content_hash ++ replicate (16 - length (take 16 content_hash)) 0
