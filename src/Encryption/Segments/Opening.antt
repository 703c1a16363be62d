-- ===== src/Encryption/Segments/Opening.antt =====
-- A sealed segment opens, also after rotations (crates/encryption/src/xts.rs and mac.rs as
-- crates/capsule-registry/src/pipeline.rs calls them).
use space.Prelude.{
  ℕ, ◌-◌, ◌%◌, ◌<◌, ◌≤◌, ◌≡◌, refl, sym, ap, ◌∙◌, true, some, ok, err, ◌∷◌, ◌++◌, List, length,
  length-append, length-replicate, length-take-le, replicate, take, arith,
  invalid_ciphertext_length, Bool-cases, inl, inr, ltb,
}
use space.Common.{Bytes, ContentHash, u32_mod, Policy, is_enabled}
use space.Compression.{Codec, CompressionResult, compress_segment}
use space.Gc.{World}
use space.Pipeline.Write.{Prepared, prepare, after_compress, sealed, after_seal, write_chunks}
use space.Keys.{XtsKeyPair, KeyManager, Hashes, get_key}
use space.Keys.Available.{IsGenuine, Steps, start, get_key_stable}
use space.Pipeline.Services.{EncryptionMetadata, Services, DedupStats}
use space.Content.Prepare.{OpensSeals}
use space.Encryption.Policy.{new_xts, set_integrity_tag, is_encrypted, is_some}
use space.Encryption.Xts.{
  Xts, IsFull, XtsLaws, encrypt, decrypt, encrypt_segment, decrypt_segment, decrypt_checked,
  derive_tweak_from_hash,
}
use space.Encryption.Mac.{Blake3, compute_mac, serialize_metadata_for_mac, derive_mac_key}
use space.Encryption.Mac.Forgery.{verify_mac_lem}
use space.Encryption.Segments.{seal_segment, open_segment, services_of}

pub length-derive_tweak : (hash : Bytes) → length (derive_tweak_from_hash hash) ≡ 16
unfolding derive_tweak_from_hash
length-derive_tweak hash =
    let front = take 16 hash in
    omega (
      arith,
      length-take-le 16 hash,
      length-append front (replicate {A = ℕ} (16 - length front) 0),
      length-replicate {A = ℕ} (16 - length front) 0,
    )

module _ (x : Xts) (laws : XtsLaws x) where
  -- With the laws of XTS: `encrypt_segment` gives a text of the same length with its metadata, and
  -- `decrypt_segment` gets the plain text back from it, whatever tag the metadata carry.
  decrypt_segment-encrypt_segment :
      (b : Bytes) (pair : XtsKeyPair) (version : ℕ) (tweak : Bytes)
      → IsFull pair
      → length tweak ≡ 16
      → 16 ≤ length b
      → length b < u32_mod
      → (cipher : Bytes) × (length cipher ≡ length b)
        × (encrypt_segment x b pair version tweak
            ≡ ok (cipher, new_xts version tweak (length cipher)))
        × ((tag : Bytes)
            → decrypt_segment x cipher pair
                (set_integrity_tag tag (new_xts version tweak (length cipher)))
              ≡ ok b)
  unfolding encrypt_segment encrypt decrypt_segment decrypt_checked decrypt new_xts is_encrypted
      is_some set_integrity_tag
  decrypt_segment-encrypt_segment b pair version tweak full t16 long small =
      let cipher = x.encrypt_sector pair tweak b in
      let n = laws.same_length pair tweak b full t16 long in
      let back = laws.inverse pair tweak b full t16 long in
      let whole : length cipher % u32_mod ≡ length cipher = omega (arith, n, small) in
      (cipher, n, ground (arith, whole), λ tag. ground (arith, n, back))

module _ (h : Hashes) (block : (key message : Bytes) → length (h.hmac key message) ≡ 32)
    (b3 : Blake3) (x : Xts) (laws : XtsLaws x) where
  -- What sealing gives: a text of the same length, under the current version, that opens at any
  -- later time to `b`, with the metadata as a segment keeps them.
  pub record Sealed (hash : ContentHash) (b : Bytes) (m m' : KeyManager) : Type 0 where
    pub cipher : Bytes
    pub meta : EncryptionMetadata
    pub made : (seal_segment h b3 x hash b m).0 ≡ ok (cipher, meta)
    pub same_length : length cipher ≡ length b
    pub version : meta.key_version ≡ some m.current_version
    pub kept : meta.ciphertext_len ≡ some (length cipher)
    pub opened : (open_segment h b3 x cipher meta m').0 ≡ ok b

  -- With a keyed hash of 32 bytes, the laws of XTS and a manager whose cache is genuine: a text of
  -- at least 16 bytes and below 4 GiB is always sealed, under the current key version and with its
  -- length kept, and whatever rotations, completions, clearings and lookups the manager goes
  -- through afterwards, the sealed text verifies and opens to the same bytes.
  pub open_segment-seal_segment :
      (hash : ContentHash) (b : Bytes) (m m' : KeyManager)
      → IsGenuine h block m
      → Steps h block m m'
      → 16 ≤ length b
      → length b < u32_mod
      → Sealed hash b m m'
  unfolding seal_segment open_segment compute_mac set_integrity_tag new_xts
  open_segment-seal_segment hash b m m' g steps long small =
      let (stable, (key, at, n1, n2)) = get_key_stable h block m m' m.current_version g steps in
      let first : (get_key h m.current_version m).0 ≡ ok key = sym stable ∙ at in
      let tweak = derive_tweak_from_hash hash in
      let full : IsFull key = record { first = n1; second = n2 } in
      let (cipher, n, made, back) =
        decrypt_segment-encrypt_segment x laws b key m.current_version tweak full
          (length-derive_tweak hash) long small in
      let bare = new_xts m.current_version tweak (length cipher) in
      let tag = take 16 (
        b3.keyed (derive_mac_key b3 key.key1 key.key2)
          (cipher ++ serialize_metadata_for_mac bare)) in
      let verified = (verify_mac_lem b3 cipher bare key.key1 key.key2 tag).0.0 refl in
      record {
        cipher = cipher;
        meta = set_integrity_tag tag bare;
        made = rw (first, made) refl;
        same_length = n;
        version = refl;
        kept = refl;
        opened = rw (at, verified, back tag) refl;
      }

  -- With a keyed hash of 32 bytes and a genuine manager, a text below one block is not sealed.
  seal_segment_short :
      (hash : ContentHash) (b : Bytes) (m : KeyManager)
      → IsGenuine h block m
      → length b < 16
      → (seal_segment h b3 x hash b m).0 ≡ err invalid_ciphertext_length
  unfolding seal_segment encrypt_segment encrypt
  seal_segment_short hash b m g short =
      let (key, at, n1, n2) = (get_key_stable h block m m m.current_version g start).1 in
      rw at (ground arith)

  module _ (codec : Codec) (hash_content : Bytes → ContentHash) (m later : KeyManager)
      (g : IsGenuine h block m) (steps : Steps h block m later) where
    abbrev services : Services
    services = services_of h b3 x codec hash_content m later

    -- With a keyed hash of 32 bytes, the laws of XTS and a genuine manager: the key manager and the
    -- encryption crate together keep what the write pipeline relies on. What was sealed below
    -- 4 GiB names its key version, has the length of the plain text and opens to it, whatever the
    -- manager did in between.
    pub services_of-OpensSeals : OpensSeals services
    unfolding services_of
    services_of-OpensSeals = record {
      opens = λ hash b cipher meta small made. elim (Bool-cases (ltb (length b) 16)) [
        | inl short ↦ let refused = seal_segment_short hash b m g (ground arith) in absurd (cc)
        | inr long ↦
            let r = open_segment-seal_segment hash b m later g steps (ground arith) small in
            let text : r.cipher ≡ cipher = cc in
            let same : r.meta ≡ meta = cc in
            let fits : length cipher % u32_mod ≡ length cipher =
              omega (arith, ap length text, r.same_length, small) in
            let len : some (length cipher % u32_mod) ≡ meta.ciphertext_len =
              ap some (fits ∙ sym (ap length text))
              ∙ sym r.kept
              ∙ ap (λ q. q.ciphertext_len) same in
            let stored : EncryptionMetadata = record meta {
              ciphertext_len = some (length cipher % u32_mod);
            } in
            let whole : stored ≡ meta = λ i. record meta { ciphertext_len = len i } in
            (
              m.current_version,
              ap (λ q. q.key_version) (sym same) ∙ r.version,
              ap (λ q. (open_segment h b3 x cipher q later).0) (whole ∙ sym same)
                  ∙ ap (λ c. (open_segment h b3 x c r.meta later).0) (sym text)
                  ∙ r.opened,
              ap length (sym text) ∙ r.same_length,
            )
      ];
    }

    -- With a keyed hash of 32 bytes, the laws of XTS and a genuine manager: under a policy with
    -- encryption a chunk is prepared exactly when its compressed form has at least 16 bytes; a
    -- shorter one is refused with the length error, and with it the whole write.
    pub prepare_encrypted :
        (policy : Policy) (chunk b : Bytes) (comp : CompressionResult)
        → is_enabled policy.encryption ≡ true
        → compress_segment codec chunk policy.compression ≡ ok (b, comp)
        → length b < u32_mod
        → (16 ≤ length b → (p : Prepared) × (prepare services policy chunk ≡ ok p))
          × (length b < 16
              → (prepare services policy chunk ≡ err invalid_ciphertext_length)
                × ((rest : List Bytes) (stats : DedupStats) (w : World)
                    → write_chunks services policy (chunk ∷ rest) stats w
                      ≡ (err invalid_ciphertext_length, w)))
    unfolding prepare after_compress sealed after_seal services_of write_chunks
    prepare_encrypted policy chunk b comp on compressed small =
        let hash = hash_content b in
        (
          λ long.
              let r = open_segment-seal_segment hash b m m g start long small in
              (
                record { comp = comp; hash = hash; final_data = r.cipher; meta = some r.meta },
                rw (compressed, on, r.made) refl,
              ),
          λ short.
              let refused = seal_segment_short hash b m g short in
              (
                rw (compressed, on, refused) refl,
                λ rest stats w. rw (compressed, on, refused) refl,
              ),
        )
