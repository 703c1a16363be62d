-- ===== src/Modular/Write.antt =====
-- `write_capsule` of `Pipeline` (crates/pipeline/src/lib.rs). The compressor is
-- `Lz4ZstdCompressor` and the evaluator `DefaultPolicyEvaluator`, as in all pipelines that the file
-- builds; storage, encryptor and keyring are exchangeable.
use space.Prelude.{
  ℕ, ◌+◌, ◌%◌, Bool, true, false, Option, none, some, Result, ok, err, map_ok, panicked,
  plan_beyond_input, Exec, ◌>>=◌, ◌>>◌, pure, gets, modify, lift, List, [], ◌∷◌, ◌++◌, ltb, nat_beq,
  if◌then◌else◌, length, take, drop, lookup, bytes_eq,
}
use space.Common.{
  Bytes, SegmentId, CapsuleId, ContentHash, CompressionPolicy, EncryptionPolicy, Algorithm,
  is_enabled, Policy, Segment, u32_mod, default_segment_size,
}
use space.Compression.{Codec, CompressionResult, SkipReason, compress_segment}
use space.Pipeline.Services.{DedupStats, no_stats, record_segment}
use space.Pipeline.Write.{chunks}
use space.Layout.{SegmentRef, Zone, ZonePlan, synthesize}
use space.Storage.{StorageBackend}
use space.Modular.Catalog.{
  CatalogInner, allocate_segment, create_capsule, catalog_register_content, Blake3Deduper,
  deduper_register, update_stats,
}
use space.Modular.Encryptors.{EncryptionSummary, new_summary, Encryptor}

pub record CompressionSummary : Type 0 where
  pub original_size : ℕ
  pub output_size : ℕ
  pub algorithm : Algorithm
  pub compressed : Bool
  pub reused_input : Bool
  pub reason : Option SkipReason

abbrev pub summarize : CompressionResult → CompressionSummary
summarize r = record {
  original_size = r.original_size;
  output_size = r.compressed_size;
  algorithm = r.algorithm;
  compressed = r.compressed;
  reused_input = r.reused_original;
  reason = r.reason;
}

unfoldable pub compress : Codec → Bytes → CompressionPolicy → Result (Bytes × CompressionSummary)
compress codec bytes policy =
    map_ok (λ out. (out.0, summarize out.1)) (compress_segment codec bytes policy)

-- The parts other than the storage; `hash_bytes` is the hexadecimal BLAKE3 hash.
pub record Parts : Type 0 where
  pub codec : Codec
  pub hash_bytes : Bytes → ContentHash
  pub encryptor : Encryptor
  pub keyring : Option (CapsuleId → SegmentId → Result Bytes)

pub record PipelineState (S : Type 0) : Type 0 where
  pub storage : S
  pub catalog : CatalogInner
  pub deduper : Blake3Deduper
  pub stats : DedupStats

-- What the statistics record of a chunk.
pub record Noted : Type 0 where
  pub id : SegmentId
  pub len : ℕ
  pub was_deduped : Bool

unfoldable pub derive_if :
    Option (CapsuleId → SegmentId → Result Bytes) → CapsuleId → SegmentId → Result (Unit {0})
derive_if none capsule id = ok tt
derive_if (some derive) capsule id = map_ok (λ key. tt) (derive capsule id)

abbrev pub describe_segment :
    SegmentId → Bytes → CompressionSummary → ContentHash → EncryptionSummary → Bool → Segment
describe_segment id payload summary hash sealed encrypted = record {
  id = id;
  offset = 0;
  len = length payload % u32_mod;
  compressed = summary.compressed;
  compression_algo = summary.algorithm;
  content_hash = some hash;
  ref_count = 1;
  deduplicated = false;
  access_count = 0;
  encryption_version = sealed.encryption_version;
  key_version = sealed.key_version;
  tweak_nonce = sealed.tweak_nonce;
  integrity_tag = sealed.integrity_tag;
  encrypted = encrypted;
  pq_ciphertext = none;
  pq_nonce = none;
}

abbrev pub add_reference : Segment → Segment
add_reference segment =
    let refs = (segment.ref_count + 1) % u32_mod in
    record segment { ref_count = refs; deduplicated = ltb 1 refs }

module _ {S : Type 0} where
  abbrev pub on_storage {ℓ} : {A : Type ℓ} → Exec S A → Exec (PipelineState S) A
  on_storage m p = let (r, s) = m p.storage in (r, record p { storage = s })

  abbrev pub on_catalog {ℓ} : {A : Type ℓ} → Exec CatalogInner A → Exec (PipelineState S) A
  on_catalog m p = let (r, c) = m p.catalog in (r, record p { catalog = c })

  -- `self.deduper.update_stats` and `self.stats.record`.
  unfoldable pub note : ℕ → Bool → PipelineState S → PipelineState S
  unfolding update_stats
  note len was_deduped p = record p {
    deduper = update_stats len was_deduped p.deduper;
    stats = record_segment len was_deduped p.stats;
  }

  module _ {T : Type 0} (b : StorageBackend S T) where
    abbrev pub begun_with {ℓ} :
        {A : Type ℓ}
        → Exec (PipelineState S × T) A
        → PipelineState S
        → Result T × S
        → Result A × PipelineState S
    begun_with body p (err e, s) = (err e, record p { storage = s })
    begun_with body p (ok t, s) =
        let (r, (q, t')) = body (record p { storage = s }, t) in
        (r, record q { storage = b.drop_txn (q.storage, t') })

    -- A transaction over the storage, open while the pipeline does other things too. It goes out
    -- of scope at the end, also after an error.
    unfoldable pub with_txn {ℓ} :
        {A : Type ℓ} → Exec (PipelineState S × T) A → Exec (PipelineState S) A
    with_txn body p = begun_with body p (b.begin_txn p.storage)

    abbrev pub in_pipeline {ℓ} :
        {A : Type ℓ} → Exec (PipelineState S) A → Exec (PipelineState S × T) A
    in_pipeline m (p, t) = let (r, q) = m p in (r, (q, t))

    abbrev pub on_txn {ℓ} : {A : Type ℓ} → Exec (S × T) A → Exec (PipelineState S × T) A
    on_txn m (p, t) = let (r, (s, t')) = m (p.storage, t) in (r, (record p { storage = s }, t'))

    module _ (parts : Parts) where
      -- `DefaultPolicyEvaluator` answers with the fields of the policy.
      unfoldable pub payload_of :
          CapsuleId → EncryptionPolicy → SegmentId → Bytes → Result (Bytes × EncryptionSummary)
      unfolding derive_if
      payload_of capsule policy id view =
          if is_enabled policy
          then elim (derive_if parts.keyring capsule id) [
            | err e ↦ err e
            | ok key ↦ parts.encryptor.encrypt_payload view policy id
          ]
          else ok (view, new_summary)

      unfoldable pub store_in :
          CapsuleId
          → EncryptionPolicy
          → Bytes
          → CompressionSummary
          → Exec (PipelineState S × T) SegmentId
      unfolding allocate_segment payload_of
      store_in capsule policy view summary = do
        id ← in_pipeline (on_catalog allocate_segment)
        out ← lift (payload_of capsule policy id view)
        on_txn (do
          b.append_in id out.0
          b.set_segment_metadata id
              (describe_segment id out.0 summary (parts.hash_bytes view) out.1 (is_enabled policy))
          b.commit)
        pure id

      unfoldable pub store_segment :
          CapsuleId
          → EncryptionPolicy
          → Bytes
          → CompressionSummary
          → Exec (PipelineState S) SegmentId
      unfolding store_in with_txn
      store_segment capsule policy view summary = with_txn (store_in capsule policy view summary)

      unfoldable pub share_segment : SegmentId → Exec (PipelineState S) (Unit {0})
      unfolding with_txn
      share_segment id = do
        segment ← on_storage (b.metadata id)
        with_txn (on_txn (do b.set_segment_metadata id (add_reference segment); b.commit))

      -- Whether the policy wants deduplication is not asked.
      unfoldable pub place_view :
          CapsuleId
          → EncryptionPolicy
          → Bytes
          → CompressionSummary
          → Option SegmentId
          → Exec (PipelineState S) Noted
      unfolding store_segment share_segment catalog_register_content deduper_register note
      place_view capsule policy view summary (some existing) = do
        share_segment existing
        modify (note summary.output_size true)
        pure (record { id = existing; len = summary.output_size; was_deduped = true })
      place_view capsule policy view summary none = do
        id ← store_segment capsule policy view summary
        on_catalog (catalog_register_content (parts.hash_bytes view) id)
        modify (λ p. record p { deduper = deduper_register (parts.hash_bytes view) id p.deduper })
        modify (note summary.output_size false)
        pure (record { id = id; len = summary.output_size; was_deduped = false })

      unfoldable pub write_chunk : CapsuleId → Policy → Bytes → Exec (PipelineState S) Noted
      unfolding place_view compress
      write_chunk capsule policy chunk = do
        out ← lift (compress parts.codec chunk policy.compression)
        existing ← gets (λ p. lookup (parts.hash_bytes out.0) p.catalog.content)
        place_view capsule policy.encryption out.0 out.1 existing

      abbrev pub slice_of : Bytes → SegmentRef → Result Bytes
      slice_of bytes r =
          if ltb (length bytes) (r.offset + r.len)
          then err plan_beyond_input
          else ok (take r.len (drop r.offset bytes))

      unfoldable pub write_refs :
          CapsuleId
          → Policy
          → Bytes
          → List SegmentRef
          → DedupStats
          → Exec (PipelineState S) (List SegmentId × DedupStats)
      write_refs capsule policy bytes [] stats = pure ([], stats)
      write_refs capsule policy bytes (r ∷ rest) stats = do
        chunk ← lift (slice_of bytes r)
        noted ← write_chunk capsule policy chunk
        out ←
            write_refs capsule policy bytes rest (record_segment noted.len noted.was_deduped stats)
        pure (noted.id ∷ out.0, out.1)

      unfoldable pub write_zones :
          CapsuleId
          → Policy
          → Bytes
          → List Zone
          → DedupStats
          → Exec (PipelineState S) (List SegmentId × DedupStats)
      write_zones capsule policy bytes [] stats = pure ([], stats)
      write_zones capsule policy bytes (z ∷ zones) stats = do
        first ← write_refs capsule policy bytes z.segments stats
        out ← write_zones capsule policy bytes zones first.1
        pure (first.0 ++ out.0, out.1)

      -- `data.chunks(0)` panics.
      unfoldable pub plan_of : CapsuleId → Policy → Bytes → Result ZonePlan
      plan_of capsule policy bytes =
          let size = default_segment_size policy.layout.strategy in
          if nat_beq size 0
          then err panicked
          else synthesize parts.hash_bytes policy (capsule ∷ []) (chunks (length bytes) size bytes)

      unfoldable pub write_capsule :
          ℕ → CapsuleId → Bytes → Policy → Exec (PipelineState S) CapsuleId
      unfolding plan_of create_capsule
      write_capsule now capsule bytes policy = do
        plan ← lift (plan_of capsule policy bytes)
        out ← write_zones capsule policy bytes plan.zones no_stats
        on_catalog (create_capsule now capsule (length bytes) policy out.0 out.1)
        pure capsule
