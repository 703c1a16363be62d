-- ===== src/Modular/Sharing.antt =====
-- Sharing by the hash of the compressed view alone (crates/pipeline/src/lib.rs).
use space.Prelude.{◌≡◌, refl, true, some, ok, lookup, bytes_eq}
use space.Common.{
  Bytes, SegmentId, CapsuleId, EncryptionPolicy, Policy, CompressionPolicy, uncompressed,
}
use space.Compression.{compress_segment, reuse, ineffective}
use space.Storage.{StorageBackend}
use space.Storage.Laws.{StorageLaws}
use space.Modular.Write.{
  Parts, PipelineState, CompressionSummary, summarize, compress, place_view, write_chunk, Noted,
  note,
}
use space.Modular.Read.{fetch_segment}
use space.Modular.Reading.{Holds, fetch_segment-Holds, share_segment-Keeps}

module _ {S T : Type 0} (b : StorageBackend S T) (laws : StorageLaws b) (parts : Parts) where
  compress_raw :
      (v : Bytes) (policy : CompressionPolicy)
      → policy ≡ uncompressed
      → (summary : CompressionSummary) × (compress parts.codec v policy ≡ ok (v, summary))
  unfolding compress compress_segment
  compress_raw v policy plain = (summarize (reuse v (some ineffective)), rw plain refl)

  -- Over any storage that keeps the laws: when the content index names a segment for the bytes
  -- `v`, writing `v` as a chunk of a policy without compression succeeds and takes that segment,
  -- whatever the policy says about deduplication; the segment then reads as what it stood for
  -- before. So where `v` was the compressed form of another text `c`, what was written as `v` is
  -- read back as `c`.
  pub raw_view_shared :
      (capsule : CapsuleId) (policy : Policy) (id : SegmentId) (v c : Bytes) (p : PipelineState S)
      → laws.IsValid p.storage
      → policy.compression ≡ uncompressed
      → lookup (parts.hash_bytes v) p.catalog.content ≡ some id
      → Holds b laws parts p.storage id c
      → (q : PipelineState S) × (noted : Noted) × (write_chunk b parts capsule policy v p
          ≡ (ok noted, q))
        × (noted.id ≡ id)
        × ((other : EncryptionPolicy) → fetch_segment parts b other noted.id q ≡ (ok c, q))
  unfolding write_chunk place_view note
  raw_view_shared capsule policy id v c p valid plain there h =
      let (s', valid', shared, kept, listed) = share_segment-Keeps b laws parts id c p valid h in
      let (summary, raw) = compress_raw v policy.compression plain in
      (
        note summary.output_size true (record p { storage = s' }),
        record { id = id; len = summary.output_size; was_deduped = true },
        rw (raw, there, shared) refl,
        refl,
        λ other.
            fetch_segment-Holds b laws parts other id c
              (note summary.output_size true (record p { storage = s' })) (kept id c h),
      )
