-- ===== src/Encryption/Mac.antt =====
-- crates/encryption/src/mac.rs. BLAKE3, plain and keyed, is a parameter.
pub mod Forgery
use space.Prelude.{
  ℕ, zero, suc, ◌/◌, ◌%◌, Bool, Option, none, some, Result, ok, err, integrity_failure, List, [],
  ◌∷◌, ◌++◌, bytes_beq, if◌then◌else◌, take,
}
use space.Common.{Bytes}
use space.Pipeline.Services.{EncryptionMetadata}
use space.Encryption.Policy.{require_integrity_tag}

-- `hash` is the 32 bytes of `Hasher::new`, `keyed key` those of `Hasher::new_keyed`.
pub record Blake3 : Type 0 where
  pub hash : Bytes → Bytes
  pub keyed : Bytes → Bytes → Bytes

-- The text "SPACE-BLAKE3-MAC-KEY-V1".
abbrev pub mac_key_context : Bytes
mac_key_context =
    83 ∷ 80 ∷ 65 ∷ 67 ∷ 69 ∷ 45 ∷ 66 ∷ 76 ∷ 65 ∷ 75 ∷ 69 ∷ 51 ∷ 45 ∷ 77 ∷ 65 ∷ 67 ∷ 45 ∷ 75 ∷ 69
    ∷ 89 ∷ 45 ∷ 86 ∷ 49 ∷ []

-- The low `width` bytes of a number, the lowest first.
unfoldable pub to_le_bytes : ℕ → ℕ → Bytes
to_le_bytes zero value = []
to_le_bytes (suc width) value = value % 256 ∷ to_le_bytes width (value / 256)

-- An absent field adds nothing.
abbrev pub present {ℓ} : {A : Type ℓ} → (A → Bytes) → Option A → Bytes
present f none = []
present f (some a) = f a

unfoldable pub serialize_metadata_for_mac : EncryptionMetadata → Bytes
serialize_metadata_for_mac meta =
    present (to_le_bytes 2) meta.encryption_version
    ++ (present (to_le_bytes 4) meta.key_version
        ++ (present (λ tweak. tweak) meta.tweak_nonce
            ++ present (to_le_bytes 4) meta.ciphertext_len))

module _ (h : Blake3) where
  unfoldable pub derive_mac_key : Bytes → Bytes → Bytes
  derive_mac_key xts_key1 xts_key2 = h.hash (mac_key_context ++ xts_key1 ++ xts_key2)

  unfoldable pub compute_mac : Bytes → EncryptionMetadata → Bytes → Bytes → Result Bytes
  compute_mac ciphertext meta xts_key1 xts_key2 = ok (
      take 16 (
        h.keyed (derive_mac_key xts_key1 xts_key2) (ciphertext ++ serialize_metadata_for_mac meta)))

  -- `ct_eq`, in constant time, answers as `bytes_beq` does.
  unfoldable pub matches_tag : Bytes → Result Bytes → Result (Unit {0})
  matches_tag stored_tag (err e) = err e
  matches_tag stored_tag (ok computed_tag) =
      if bytes_beq stored_tag computed_tag then ok tt else err integrity_failure

  unfoldable pub verify_tag :
      Bytes → EncryptionMetadata → Bytes → Bytes → Result Bytes → Result (Unit {0})
  unfolding compute_mac matches_tag
  verify_tag ciphertext meta xts_key1 xts_key2 (err e) = err e
  verify_tag ciphertext meta xts_key1 xts_key2 (ok stored_tag) =
      let metadata_for_mac : EncryptionMetadata = record meta { integrity_tag = none } in
      matches_tag stored_tag (compute_mac ciphertext metadata_for_mac xts_key1 xts_key2)

  unfoldable pub verify_mac : Bytes → EncryptionMetadata → Bytes → Bytes → Result (Unit {0})
  unfolding verify_tag
  verify_mac ciphertext meta xts_key1 xts_key2 =
      verify_tag ciphertext meta xts_key1 xts_key2 (require_integrity_tag meta)
