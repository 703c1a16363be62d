-- ===== src/Pipeline/Read.antt =====
-- `read_capsule` and `read_range` of `WritePipeline`.
use space.Prelude.{
  ℕ, ◌+◌, ◌-◌, ◌%◌, ◌||◌, panicked, none, some, no_key_manager, missing_key_version, beyond_capsule,
  Result, ok, err, Exec, ◌>>=◌, pure, raise, lift, List, [], ◌∷◌, ◌++◌, nat_eq, ltb, not,
  if◌then◌else◌, length, take, drop,
}
use space.Common.{
  Bytes, SegmentId, CapsuleId, CompressionPolicy, uncompressed, lz4, zstd, Segment, u32_mod,
  u64_mod,
}
use space.Compression.{decompress_lz4, decompress_zstd}
use space.Nvram.{read, get_segment_metadata}
use space.Registry.{lookup_capsule}
use space.Gc.{World, on_registry, on_nvram}
use space.Pipeline.Services.{EncryptionMetadata, Services}

-- `bytes[start..end]`, with the sums of `u64` and `usize`.
unfoldable pub slice : Bytes → ℕ → ℕ → Result Bytes
slice bytes start len =
    let end' = (start + len) % u64_mod in
    if ltb end' start || ltb (length bytes) end'
    then err panicked
    else ok (take (end' - start) (drop start bytes))

module _ (s : Services) where
  unfoldable pub metadata_of : Segment → Bytes → EncryptionMetadata
  metadata_of segment raw = record {
    encryption_version = segment.encryption_version;
    key_version = segment.key_version;
    tweak_nonce = segment.tweak_nonce;
    integrity_tag = segment.integrity_tag;
    ciphertext_len = some (length raw % u32_mod);
  }

  unfoldable pub open_sealed : Segment → Bytes → Result Bytes
  unfolding metadata_of
  open_sealed segment raw =
      if not s.has_keys then err no_key_manager else elim segment.key_version [
        | none ↦ err missing_key_version
        | some v ↦ s.unseal raw (metadata_of segment raw)
      ]

  unfoldable pub decrypted : Segment → Bytes → Result Bytes
  unfolding open_sealed
  decrypted segment raw = if segment.encrypted then open_sealed segment raw else ok raw

  -- A decoder that fails means to the code that the bytes were not compressed.
  unfoldable pub or_raw : Bytes → Result Bytes → Bytes
  or_raw bytes (ok out) = out
  or_raw bytes (err e) = bytes

  unfoldable pub expand : CompressionPolicy → Bytes → Bytes
  unfolding or_raw
  expand uncompressed bytes = bytes
  expand (lz4 l) bytes = or_raw bytes (decompress_lz4 s.codec bytes)
  expand (zstd l) bytes = or_raw bytes (decompress_zstd s.codec bytes)

  unfoldable pub read_segment : CompressionPolicy → SegmentId → Exec World Bytes
  unfolding decrypted expand
  read_segment compression id = do
    raw ← on_nvram (read id)
    segment ← on_nvram (get_segment_metadata id)
    bytes ← lift (decrypted segment raw)
    pure (expand compression bytes)

  unfoldable pub read_segments : CompressionPolicy → List SegmentId → Exec World Bytes
  read_segments compression [] = pure []
  read_segments compression (id ∷ ids) = do
    bytes ← read_segment compression id
    rest ← read_segments compression ids
    pure (bytes ++ rest)

  unfoldable pub read_capsule : CapsuleId → Exec World Bytes
  read_capsule id = do
    capsule ← on_registry (lookup_capsule id)
    read_segments capsule.policy.compression capsule.segments

  unfoldable pub read_range : CapsuleId → ℕ → ℕ → Exec World Bytes
  unfolding slice
  read_range id offset len = do
    capsule ← on_registry (lookup_capsule id)
    if ltb capsule.size ((offset + len) % u64_mod)
        then raise beyond_capsule
        else do bytes ← read_capsule id; lift (slice bytes offset len)
