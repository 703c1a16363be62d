-- ===== src/Content/Prepare.antt =====
-- A prepared chunk can be turned back into the chunk.
use space.Prelude.{
  ℕ, ◌%◌, ◌≤◌, ◌<◌, ◌≡◌, refl, ap, Bool, true, false, Option, some, Result, ok, err, ◌&&◌, inl, inr,
  length, arith,
}
use space.Common.{
  Bytes, ContentHash, CompressionPolicy, uncompressed, lz4, zstd, is_enabled, Policy, Segment,
  u32_mod,
}
use space.Compression.{CompressionResult, compress_segment, verify_integrity}
use space.Compression.Integrity.{
  compress_segment-Recovers, verify_integrity_lz4, verify_integrity_zstd,
}
use space.Pipeline.Services.{EncryptionMetadata, Services}
use space.Pipeline.Read.{decrypted, expand}
use space.Pipeline.Write.{Prepared, describe, prepare, sealed, after_seal, after_compress}

-- What the encryption crate promises of a text below 4 GiB: sealed, it carries its key version, has
-- the length of the plain one, and opens again under the metadata that the segment keeps.
pub record OpensSeals (s : Services) : Type 0 where
  pub opens :
      (h : ContentHash) (b cipher : Bytes) (meta : EncryptionMetadata)
      → length b < u32_mod
      → s.seal h b ≡ ok (cipher, meta)
      → (v : ℕ) × (meta.key_version ≡ some v)
        × (s.unseal cipher (record meta { ciphertext_len = some (length cipher % u32_mod) }) ≡ ok b)
        × (length cipher ≡ length b)

module _ (s : Services) (seals : OpensSeals s) where
  -- `b`, the compressed chunk, is what the segment of `p` decrypts to.
  pub record Opens (p : Prepared) (b : Bytes) : Type 0 where
    pub hashed : s.hash_content b ≡ p.hash
    pub fits : length p.final_data ≡ length b
    pub opened :
        (hash : Option ContentHash) (seg : Segment)
        → seg.encrypted ≡ false
        → decrypted s (describe p.comp hash p.meta seg) p.final_data ≡ ok b

  after_seal-Opens :
      (comp : CompressionResult) (b : Bytes) (p : Prepared)
      (r : Result (Bytes × EncryptionMetadata))
      → length b < u32_mod
      → s.has_keys ≡ true
      → s.seal (s.hash_content b) b ≡ r
      → after_seal comp (s.hash_content b) r ≡ ok p
      → Opens p b
  unfolding after_seal decrypted describe
  after_seal-Opens comp b p (err x) small keys r e = cc
  after_seal-Opens comp b p (ok (cipher, meta)) small keys r e =
      let (v, version, opened, same_length) =
        seals.opens (s.hash_content b) b cipher meta small r in
      record { hashed = ground arith; fits = ground arith; opened = λ hash seg plain. ground arith }

  sealed-Opens :
      (on : Bool) (comp : CompressionResult) (b : Bytes) (p : Prepared)
      → length b < u32_mod
      → (on ≡ true → s.has_keys ≡ true)
      → sealed s on comp (s.hash_content b) b ≡ ok p
      → Opens p b
  unfolding sealed decrypted describe
  sealed-Opens false comp b p small keys e = record {
    hashed = ground arith;
    fits = ground arith;
    opened = λ hash seg plain. ground arith;
  }
  sealed-Opens true comp b p small keys e =
      after_seal-Opens comp b p (s.seal (s.hash_content b) b) small (keys refl) refl e

  -- What a chunk's compressed form expands to under the policy.
  expand-compressed :
      (policy : CompressionPolicy) (chunk b : Bytes) (comp : CompressionResult)
      → expand s policy chunk ≡ chunk
      → compress_segment s.codec chunk policy ≡ ok (b, comp)
      → (expand s policy b ≡ chunk) × (length b ≤ length chunk)
  unfolding expand compress_segment
  expand-compressed policy chunk b comp raw e =
      elim (compress_segment-Recovers s.codec chunk policy (b, comp) e) [
        | inl same ↦ (rw same.2 raw, omega (arith, ap length same.2))
        | inr shorter ↦ (by_policy policy shorter.3 e, omega arith)
      ]
    where
      by_policy :
          (c : CompressionPolicy)
          → verify_integrity s.codec c b chunk ≡ ok tt
          → compress_segment s.codec chunk c ≡ ok (b, comp)
          → expand s c b ≡ chunk
      by_policy uncompressed h e = cc
      by_policy (lz4 l) h e = rw (verify_integrity_lz4 s.codec l b chunk h)
      by_policy (zstd l) h e = rw (verify_integrity_zstd s.codec l b chunk h)

  -- A prepared chunk is the sealed form of bytes that expand to the chunk and are no longer.
  pub prepare-Opens :
      (policy : Policy) (chunk : Bytes) (p : Prepared)
      → length chunk < u32_mod
      → expand s policy.compression chunk ≡ chunk
      → prepare s policy chunk ≡ ok p
      → (b : Bytes) × Opens p b
        × (expand s policy.compression b ≡ chunk)
        × (length b ≤ length chunk)
  unfolding prepare
  prepare-Opens policy chunk p small raw e =
      go (compress_segment s.codec chunk policy.compression) refl e
    where
      on : Bool
      on = is_enabled policy.encryption && s.has_keys

      keys : on ≡ true → s.has_keys ≡ true
      keys h = ground arith

      go :
          (r : Result (Bytes × CompressionResult))
          → compress_segment s.codec chunk policy.compression ≡ r
          → after_compress s policy r ≡ ok p
          → (b : Bytes) × Opens p b
            × (expand s policy.compression b ≡ chunk)
            × (length b ≤ length chunk)
      go (err x) c e = cc
      go (ok (b, comp)) c e =
          let (whole, short) = expand-compressed policy.compression chunk b comp raw c in
          (b, sealed-Opens on comp b p (omega (arith, short, small)) keys e, whole, short)
