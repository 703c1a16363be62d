-- ===== src/Encryption/Mac/Forgery.antt =====
-- What a tag that verifies says of the text and of the metadata (crates/encryption/src/mac.rs).
use space.Prelude.{
  ℕ, zero, suc, ◌/◌, ◌^◌, ◌<◌, ◌≡◌, ◌≢◌, ◌↔◌, ◌⊎◌, inl, inr, refl, sym, ap, ◌∙◌, none, some, ok,
  err, missing_integrity_tag, integrity_failure, ◌∷◌, ◌++◌, bytes_beq, bytes_beq_iff, Bool-cases,
  arith, length, length-append, take, drop, take-all, drop-all, bytes_eq,
}
use space.Common.{Bytes}
use space.Pipeline.Services.{EncryptionMetadata}
use space.Encryption.Policy.{set_integrity_tag}
use space.Encryption.Mac.{
  Blake3, to_le_bytes, serialize_metadata_for_mac, derive_mac_key, compute_mac, verify_mac,
  verify_tag, matches_tag,
}

-- The metadata of an encrypted segment, each number as wide as its type.
pub record Describes (meta : EncryptionMetadata) (version key_version : ℕ) (tweak : Bytes)
    (ciphertext_len : ℕ) : Type 0 where
  pub version_is : meta.encryption_version ≡ some version
  pub key_version_is : meta.key_version ≡ some key_version
  pub tweak_is : meta.tweak_nonce ≡ some tweak
  pub len_is : meta.ciphertext_len ≡ some ciphertext_len
  pub version_fits : version < 2 ^ 16
  pub key_version_fits : key_version < 2 ^ 32
  pub tweak_fits : length tweak ≡ 16
  pub len_fits : ciphertext_len < 2 ^ 32

pub length-to_le_bytes : (width value : ℕ) → length (to_le_bytes width value) ≡ width
unfolding to_le_bytes
length-to_le_bytes zero value = refl
length-to_le_bytes (suc width) value = omega (arith, length-to_le_bytes width (value / 256))

-- Two lists with heads of one length are equal only part by part.
pub append_inj_left : (a b c d : Bytes) → length a ≡ length b → a ++ c ≡ b ++ d → (a ≡ b) × (c ≡ d)
append_inj_left a b c d same e = (
  sym (take-all a c) ∙ (λ i. take (same i) (e i)) ∙ take-all b d,
  sym (drop-all a c) ∙ (λ i. drop (same i) (e i)) ∙ drop-all b d,
)

pub append_inj_right : (a b c d : Bytes) → length c ≡ length d → a ++ c ≡ b ++ d → (a ≡ b) × (c ≡ d)
append_inj_right a b c d same e =
    append_inj_left a b c d (omega (arith, same, ap length e, length-append a c, length-append b d))
      e

cons_inj : {a b : ℕ} {c d : Bytes} → a ∷ c ≡ b ∷ d → (a ≡ b) × (c ≡ d)
cons_inj e = (cc, cc)

-- `value` is below 256 to the power `width`.
abbrev pub Fits : ℕ → ℕ → Type 0
Fits zero value = value < 1
Fits (suc width) value = Fits width (value / 256)

pub to_le_bytes_inj :
    (width a b : ℕ)
    → Fits width a
    → Fits width b
    → to_le_bytes width a ≡ to_le_bytes width b
    → a ≡ b
unfolding to_le_bytes
to_le_bytes_inj zero a b small small' e = omega arith
to_le_bytes_inj (suc width) a b small small' e =
    let (low, high) = cons_inj e in
    omega (arith, low, to_le_bytes_inj width (a / 256) (b / 256) small small' high)

module _ (meta : EncryptionMetadata) (v k : ℕ) (t : Bytes) (n : ℕ)
    (d : Describes meta v k t n) where
  serialized :
      serialize_metadata_for_mac meta
      ≡ to_le_bytes 2 v ++ (to_le_bytes 4 k ++ (t ++ to_le_bytes 4 n))
  unfolding serialize_metadata_for_mac
  serialized = rw (d.version_is, d.key_version_is, d.tweak_is, d.len_is) refl

  length-serialized : length (serialize_metadata_for_mac meta) ≡ 26
  unfolding to_le_bytes
  length-serialized = rw serialized (
      omega (
        arith,
        d.tweak_fits,
        length-append (to_le_bytes 2 v) (to_le_bytes 4 k ++ (t ++ to_le_bytes 4 n)),
        length-append (to_le_bytes 4 k) (t ++ to_le_bytes 4 n),
        length-append t (to_le_bytes 4 n),
        length-to_le_bytes 2 v,
        length-to_le_bytes 4 k,
        length-to_le_bytes 4 n,
      ))

-- Metadata of one form are written down as the same bytes only if they agree.
serialize_inj :
    (meta meta' : EncryptionMetadata) (v k v' k' : ℕ) (t t' : Bytes) (n n' : ℕ)
    → Describes meta v k t n
    → Describes meta' v' k' t' n'
    → serialize_metadata_for_mac meta ≡ serialize_metadata_for_mac meta'
    → (v ≡ v') × (k ≡ k') × (t ≡ t') × (n ≡ n')
serialize_inj meta meta' v k v' k' t t' n n' d d' e =
    let e1 : to_le_bytes 2 v ++ (to_le_bytes 4 k ++ (t ++ to_le_bytes 4 n))
        ≡ to_le_bytes 2 v' ++ (to_le_bytes 4 k' ++ (t' ++ to_le_bytes 4 n')) =
      sym (serialized meta v k t n d) ∙ e ∙ serialized meta' v' k' t' n' d' in
    let (version, e2) =
      append_inj_left (to_le_bytes 2 v) (to_le_bytes 2 v')
        (to_le_bytes 4 k ++ (t ++ to_le_bytes 4 n)) (to_le_bytes 4 k' ++ (t' ++ to_le_bytes 4 n'))
        (length-to_le_bytes 2 v ∙ sym (length-to_le_bytes 2 v')) e1 in
    let (key, e3) =
      append_inj_left (to_le_bytes 4 k) (to_le_bytes 4 k') (t ++ to_le_bytes 4 n)
        (t' ++ to_le_bytes 4 n') (length-to_le_bytes 4 k ∙ sym (length-to_le_bytes 4 k')) e2 in
    let (tweak, len) =
      append_inj_left t t' (to_le_bytes 4 n) (to_le_bytes 4 n') (d.tweak_fits ∙ sym d'.tweak_fits)
        e3 in
    (
      to_le_bytes_inj 2 v v' (omega (arith, d.version_fits)) (omega (arith, d'.version_fits))
          version,
      to_le_bytes_inj 4 k k' (omega (arith, d.key_version_fits))
          (omega (arith, d'.key_version_fits)) key,
      tweak,
      to_le_bytes_inj 4 n n' (omega (arith, d.len_fits)) (omega (arith, d'.len_fits)) len,
    )

module _ (h : Blake3) where
  -- The bytes that a tag covers.
  abbrev pub covered : Bytes → EncryptionMetadata → Bytes
  covered ciphertext meta = ciphertext ++ serialize_metadata_for_mac meta

  -- Different messages with the same tag under the key that is derived from the pair.
  pub record Collision (key1 key2 one other : Bytes) : Type 0 where
    pub differ : one ≢ other
    pub same_tag :
        take 16 (h.keyed (derive_mac_key h key1 key2) one)
        ≡ take 16 (h.keyed (derive_mac_key h key1 key2) other)

  -- `verify_mac` accepts exactly a stored tag that is the one `compute_mac` gives for the text and
  -- the metadata, whatever tag these metadata carry; without a stored tag it reports that it is
  -- missing, and with another tag that integrity is lost.
  pub verify_mac_lem :
      (ciphertext : Bytes) (meta : EncryptionMetadata) (key1 key2 tag : Bytes)
      → (compute_mac h ciphertext meta key1 key2 ≡ ok tag
          ↔ verify_mac h ciphertext (set_integrity_tag tag meta) key1 key2 ≡ ok tt)
        × (compute_mac h ciphertext meta key1 key2 ≢ ok tag
            → verify_mac h ciphertext (set_integrity_tag tag meta) key1 key2
              ≡ err integrity_failure)
        × (verify_mac h ciphertext (record meta { integrity_tag = none }) key1 key2
            ≡ err missing_integrity_tag)
  unfolding verify_mac verify_tag compute_mac matches_tag set_integrity_tag
      serialize_metadata_for_mac
  verify_mac_lem ciphertext meta key1 key2 tag =
      let mac = take 16 (h.keyed (derive_mac_key h key1 key2) (covered ciphertext meta)) in
      let same = bytes_beq_iff tag mac in
      (
        (λ e. ground (arith, same.0, same.1), λ e. ground (arith, same.0, same.1)),
        λ other. ground (arith, same.0, same.1),
        refl,
      )

  module _ (key1 key2 : Bytes) (c c' : Bytes) (m m' : EncryptionMetadata) (v k v' k' : ℕ)
      (t t' : Bytes) (n n' : ℕ) where
    -- Two sealed texts whose metadata are of the form that `encrypt_segment` gives: a tag that was
    -- computed for the first verifies for the second only if the texts, the versions, the keys'
    -- versions, the tweaks and the lengths are the same, or else the very messages that the two tags
    -- cover, each a text followed by its metadata, are a collision of the keyed hash cut to 16 bytes.
    pub forgery_collides :
        (tag : Bytes)
        → Describes m v k t n
        → Describes m' v' k' t' n'
        → compute_mac h c m key1 key2 ≡ ok tag
        → verify_mac h c' (set_integrity_tag tag m') key1 key2 ≡ ok tt
        → ((c ≡ c') × (v ≡ v') × (k ≡ k') × (t ≡ t') × (n ≡ n'))
          ⊎ Collision key1 key2 (covered c m) (covered c' m')
    unfolding compute_mac
    forgery_collides tag d d' made accepted =
        let again = (verify_mac_lem c' m' key1 key2 tag).0.1 accepted in
        let tags : take 16 (h.keyed (derive_mac_key h key1 key2) (covered c m))
            ≡ take 16 (h.keyed (derive_mac_key h key1 key2) (covered c' m')) =
          cc in
        elim (Bool-cases (bytes_beq (covered c m) (covered c' m'))) [
          | inl same ↦
              let (text, rest) =
                append_inj_right c c' (serialize_metadata_for_mac m) (serialize_metadata_for_mac m')
                  (length-serialized m v k t n d ∙ sym (length-serialized m' v' k' t' n' d'))
                  ((bytes_beq_iff (covered c m) (covered c' m')).0 same) in
              let (ve, ke, te, ne) = serialize_inj m m' v k v' k' t t' n n' d d' rest in
              inl (text, ve, ke, te, ne)
          | inr other ↦ inr (record {
            differ = λ e. ground (arith, bytes_beq_iff (covered c m) (covered c' m'));
            same_tag = tags;
          })
        ]
