-- ===== src/Pipeline/Write.antt =====
-- `write_capsule_with_policy` of `WritePipeline`: chunk, compress, seal, then store or reuse.
use space.Prelude.{
  ℕ, Bool, true, false, Option, none, some, Result, ok, err, Exec, ◌>>=◌, ◌>>◌, pure, gets, lift,
  List, [], ◌∷◌, nat_eq, ltb, ◌&&◌, if◌then◌else◌, length, take, drop, zero, suc,
}
use space.Common.{
  Bytes, SegmentId, CapsuleId, ContentHash, is_enabled, Policy, Segment, segment_size,
}
use space.Compression.{CompressionResult, compress_segment}
use space.Nvram.{fine, append, increment_refcount, update_segment_metadata}
use space.Registry.{
  create_capsule_with_segments, alloc_segment, lookup_content, register_content, add_deduped_bytes,
}
use space.Gc.{World, on_registry, on_nvram}
use space.Pipeline.Services.{EncryptionMetadata, Services, DedupStats, no_stats, record_segment}

-- `data.chunks(size)`; the fuel is the length, and each round takes something.
unfoldable pub chunks : ℕ → ℕ → Bytes → List Bytes
chunks zero size bytes = []
chunks (suc fuel) size [] = []
chunks (suc fuel) size (b ∷ bs) = take size (b ∷ bs) ∷ chunks fuel size (drop size (b ∷ bs))

unfoldable pub mark_encrypted : Option EncryptionMetadata → Segment → Segment
mark_encrypted none segment = segment
mark_encrypted (some meta) segment = record segment {
  encrypted = true;
  encryption_version = meta.encryption_version;
  key_version = meta.key_version;
  tweak_nonce = meta.tweak_nonce;
  integrity_tag = meta.integrity_tag;
}

unfoldable pub describe :
    CompressionResult → Option ContentHash → Option EncryptionMetadata → Segment → Segment
unfolding mark_encrypted
describe comp hash meta segment = mark_encrypted meta (record segment {
  compressed = comp.compressed;
  compression_algo = comp.algorithm;
  content_hash = hash;
  ref_count = 1;
  deduplicated = false;
})

-- What `write_capsule_with_policy` knows of a chunk before it looks for a copy.
pub record Prepared : Type 0 where
  pub comp : CompressionResult
  pub hash : ContentHash
  pub final_data : Bytes
  pub meta : Option EncryptionMetadata

unfoldable pub store_new : Option ContentHash → Prepared → Exec World SegmentId
unfolding describe
store_new hash p = do
  id ← on_registry alloc_segment
  segment ← on_nvram (append fine id p.final_data)
  on_nvram (update_segment_metadata fine id (describe p.comp hash p.meta segment))
  pure id

-- The segment, and the length and disposition that the statistics record.
unfoldable pub store_or_reuse : Prepared → Option SegmentId → Exec World (SegmentId × ℕ × Bool)
store_or_reuse p (some id) = do
  updated ← on_nvram (increment_refcount fine id)
  pure (id, updated.len, true)
store_or_reuse p none = do
  id ← store_new (some p.hash) p
  on_registry (register_content true p.hash id)
  pure (id, length p.final_data, false)

unfoldable pub place : Bool → Prepared → Exec World (SegmentId × ℕ × Bool)
unfolding store_or_reuse
place true p = do existing ← gets (λ w. lookup_content p.hash w.registry); store_or_reuse p existing
place false p = do id ← store_new none p; pure (id, length p.final_data, false)

unfoldable pub after_seal :
    CompressionResult → ContentHash → Result (Bytes × EncryptionMetadata) → Result Prepared
after_seal comp hash (err e) = err e
after_seal comp hash (ok (cipher, meta)) =
    ok (record { comp = comp; hash = hash; final_data = cipher; meta = some meta })

module _ (s : Services) where
  unfoldable pub sealed : Bool → CompressionResult → ContentHash → Bytes → Result Prepared
  unfolding after_seal
  sealed false comp hash bytes =
      ok (record { comp = comp; hash = hash; final_data = bytes; meta = none })
  sealed true comp hash bytes = after_seal comp hash (s.seal hash bytes)

  unfoldable pub after_compress : Policy → Result (Bytes × CompressionResult) → Result Prepared
  unfolding sealed
  after_compress policy (err e) = err e
  after_compress policy (ok (bytes, comp)) =
      sealed (is_enabled policy.encryption && s.has_keys) comp (s.hash_content bytes) bytes

  unfoldable pub prepare : Policy → Bytes → Result Prepared
  unfolding after_compress
  prepare policy chunk = after_compress policy (compress_segment s.codec chunk policy.compression)

  unfoldable pub write_chunks :
      Policy → List Bytes → DedupStats → Exec World (List SegmentId × DedupStats)
  write_chunks policy [] stats = pure ([], stats)
  write_chunks policy (chunk ∷ rest) stats = do
    prepared ← lift (prepare policy chunk)
    (id, len, was_deduped) ← place policy.dedupe prepared
    (ids, stats') ← write_chunks policy rest (record_segment len was_deduped stats)
    pure (id ∷ ids, stats')

  -- The capsule does not exist yet when `add_deduped_bytes` looks for it.
  unfoldable pub note_saved : CapsuleId → DedupStats → Exec World (Unit {0})
  note_saved id stats =
      if ltb 0 stats.bytes_saved
      then on_registry (add_deduped_bytes id stats.bytes_saved)
      else pure tt

  unfoldable pub write_capsule_with_policy : ℕ → CapsuleId → Bytes → Policy → Exec World CapsuleId
  unfolding note_saved
  write_capsule_with_policy now id bytes policy = do
    (ids, stats) ← write_chunks policy (chunks (length bytes) segment_size bytes) no_stats
    note_saved id stats
    on_registry (create_capsule_with_segments true now id (length bytes) ids policy)
    pure id
