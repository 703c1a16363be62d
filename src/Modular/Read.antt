-- ===== src/Modular/Read.antt =====
-- `read_capsule`, `delete_capsule` and `garbage_collect` of `Pipeline`
-- (crates/pipeline/src/lib.rs).
use space.Prelude.{
  ℕ, ◌+◌, ◌-◌, ◌||◌, ◌&&◌, Bool, false, Option, none, some, Result, ok, err, Exec, ◌>>=◌, ◌>>◌,
  pure, gets, lift, List, [], ◌∷◌, ◌++◌, Map, lookup, insert, ltb, nat_beq, nat_eq, if◌then◌else◌,
}
use space.Common.{Bytes, SegmentId, CapsuleId, ContentHash, EncryptionPolicy, Capsule, Segment}
use space.Compression.{decompress}
use space.Storage.{StorageBackend}
use space.Modular.Catalog.{
  catalog_lookup_capsule, catalog_delete_capsule, catalog_deregister_content, catalog_capsules,
  content_entries,
}
use space.Modular.Write.{
  Parts, PipelineState, on_storage, on_catalog, with_txn, in_pipeline, on_txn,
}

module _ (parts : Parts) where
  unfoldable pub decrypt_stored : EncryptionPolicy → SegmentId → Segment → Bytes → Result Bytes
  decrypt_stored policy id segment raw =
      if segment.encrypted then parts.encryptor.decrypt_payload raw policy id else ok raw

  unfoldable pub decompress_stored : Segment → Result Bytes → Result Bytes
  decompress_stored segment (err e) = err e
  decompress_stored segment (ok bytes) =
      if segment.compressed then decompress parts.codec bytes segment.compression_algo else ok bytes

  module _ {S T : Type 0} (b : StorageBackend S T) where
    unfoldable pub fetch_segment : EncryptionPolicy → SegmentId → Exec (PipelineState S) Bytes
    unfolding decrypt_stored decompress_stored
    fetch_segment policy id = do
      segment ← on_storage (b.metadata id)
      raw ← on_storage (b.read id)
      lift (decompress_stored segment (decrypt_stored policy id segment raw))

    unfoldable pub fetch_segments : EncryptionPolicy → List SegmentId → Exec (PipelineState S) Bytes
    fetch_segments policy [] = pure []
    fetch_segments policy (id ∷ ids) = do
      first ← fetch_segment policy id
      rest ← fetch_segments policy ids
      pure (first ++ rest)

    unfoldable pub read_capsule : CapsuleId → Exec (PipelineState S) Bytes
    read_capsule id = do
      capsule ← on_catalog (catalog_lookup_capsule id)
      fetch_segments capsule.policy.encryption capsule.segments

    abbrev pub drop_reference : Segment → Segment
    drop_reference segment =
        let refs = segment.ref_count - 1 in
        record segment { ref_count = refs; deduplicated = ltb 1 refs }

    unfoldable pub forget : Option ContentHash → SegmentId → Exec (PipelineState S) (Unit {0})
    unfolding catalog_deregister_content
    forget none id = pure tt
    forget (some hash) id = do on_catalog (catalog_deregister_content hash id); pure tt

    unfoldable pub erase_segment : SegmentId → Segment → Exec (PipelineState S) (Unit {0})
    unfolding forget
    erase_segment id segment = do on_storage (b.delete id); forget segment.content_hash id

    unfoldable pub release_segment : SegmentId → Exec (PipelineState S) (Unit {0})
    unfolding with_txn erase_segment
    release_segment id = do
      segment ← on_storage (b.metadata id)
      if ltb 1 segment.ref_count
          then with_txn b
              (on_txn b (do b.set_segment_metadata id (drop_reference segment); b.commit))
          else erase_segment id segment

    unfoldable pub release_segments : List SegmentId → Exec (PipelineState S) (Unit {0})
    release_segments [] = pure tt
    release_segments (id ∷ ids) = do release_segment id; release_segments ids

    unfoldable pub delete_capsule : CapsuleId → Exec (PipelineState S) (Unit {0})
    unfolding catalog_delete_capsule
    delete_capsule id = do
      capsule ← on_catalog (catalog_lookup_capsule id)
      release_segments capsule.segments
      on_catalog (catalog_delete_capsule id)
      pure tt

    abbrev pub names : List SegmentId → SegmentId → Bool
    names [] id = false
    names (j ∷ js) id = nat_beq j id || names js id

    -- The set of the segments of all capsules.
    abbrev pub referenced : List Capsule → SegmentId → Bool
    referenced [] id = false
    referenced (c ∷ cs) id = names c.segments id || referenced cs id

    -- Where two hashes name one segment, the later entry stands.
    unfoldable pub content_map : List (ContentHash × SegmentId) → Map SegmentId ContentHash
    content_map [] = []
    content_map ((hash, id) ∷ entries) =
        let rest = content_map entries in
        elim (lookup id rest) [ none ↦ insert id hash rest | some later ↦ rest ]

    abbrev pub keeps : List Capsule → SegmentId → Segment → Bool
    keeps capsules id segment = referenced capsules id && ltb 0 segment.ref_count

    unfoldable pub sweep_segment :
        List Capsule
        → Map SegmentId ContentHash
        → SegmentId
        → Result Segment
        → Exec (PipelineState S × T) ℕ
    unfolding forget
    sweep_segment capsules contents id (err e) = pure 0
    sweep_segment capsules contents id (ok segment) =
        if keeps capsules id segment
        then pure 0
        else do on_txn b (b.delete_in id); in_pipeline b (forget (lookup id contents) id); pure 1

    unfoldable pub sweep :
        List Capsule → Map SegmentId ContentHash → List SegmentId → Exec (PipelineState S × T) ℕ
    unfolding sweep_segment
    sweep capsules contents [] = pure 0
    sweep capsules contents (id ∷ ids) = do
      found ←
          λ a. let (r, s) = b.metadata id a.0.storage in (ok r, (record a.0 { storage = s }, a.1))
      one ← sweep_segment capsules contents id found
      rest ← sweep capsules contents ids
      pure (one + rest)

    unfoldable pub garbage_collect : Exec (PipelineState S) ℕ
    unfolding with_txn sweep content_map
    garbage_collect = do
      capsules ← gets (λ p. catalog_capsules p.catalog)
      entries ← gets (λ p. content_entries p.catalog)
      ids ← on_storage b.segment_ids
      with_txn b (do
        reclaimed ← sweep capsules (content_map entries) ids
        on_txn b b.commit
        pure reclaimed)
