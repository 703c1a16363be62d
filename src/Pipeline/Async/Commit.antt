-- ===== src/Pipeline/Async/Commit.antt =====
-- `commit_segment` (crates/capsule-registry/src/pipeline.rs, feature pipeline_async), within the
-- open transaction of the write. Writes to the metadata files succeed.
use space.Prelude.{
  ℕ, Bool, true, false, Option, none, some, pending_not_found, or_err, Exec, ◌>>=◌, ◌>>◌, pure,
  gets, modify, lift, List, [], ◌∷◌, ◌++◌, Map, lookup, insert, nat_eq, bytes_eq, ltb,
  if◌then◌else◌, length,
}
use space.Common.{SegmentId, ContentHash, Policy, saturating_inc}
use space.Nvram.{NvramLog, fine, increment_refcount}
use space.Nvram.Transaction.{
  Active, append_segment, with_segment_mut, set_segment_metadata, pending_segment,
}
use space.Registry.{CapsuleRegistry, alloc_segment, lookup_content}
use space.Pipeline.Services.{DedupStats, record_segment}
use space.Pipeline.Write.{Prepared, describe}

pub data WriteDisposition : Type 0 where
  new_segment : WriteDisposition
  reused_persistent : WriteDisposition
  reused_staged : WriteDisposition

-- The registry, the log with its open transaction, and the variables of the write.
pub record AsyncWrite : Type 0 where
  pub registry : CapsuleRegistry
  pub active : Active
  pub staged_content : Map ContentHash SegmentId
  pub dedupe_increments : List SegmentId
  pub pending_registrations : List (ContentHash × SegmentId)
  pub segment_ids : List SegmentId
  pub dedup_stats : DedupStats

abbrev pub in_registry {ℓ} : {A : Type ℓ} → Exec CapsuleRegistry A → Exec AsyncWrite A
in_registry m w = let (result, r) = m w.registry in (result, record w { registry = r })

abbrev pub in_transaction {ℓ} : {A : Type ℓ} → Exec Active A → Exec AsyncWrite A
in_transaction m w = let (result, a) = m w.active in (result, record w { active = a })

abbrev pub in_log {ℓ} : {A : Type ℓ} → Exec NvramLog A → Exec AsyncWrite A
in_log m w =
    let (result, log) = m w.active.log in
    (result, record w { active = record w.active { log = log } })

abbrev pub Committed : Type 0
Committed = SegmentId × WriteDisposition × ℕ × Option ContentHash

unfoldable pub reuse_staged : SegmentId → Exec AsyncWrite Committed
reuse_staged id = do
  found ← gets (λ w. pending_segment id w.active.txn.pending)
  pending ← lift (or_err pending_not_found found)
  in_transaction (
      with_segment_mut id (λ segment. record segment {
        ref_count = saturating_inc segment.ref_count;
        deduplicated = ltb 1 (saturating_inc segment.ref_count);
      }))
  pure (id, reused_staged, pending.len, none)

unfoldable pub reuse_persistent : SegmentId → Exec AsyncWrite Committed
reuse_persistent id = do
  segment ← in_log (increment_refcount fine id)
  pure (id, reused_persistent, segment.len, none)

-- Under a policy that deduplicates, the hash is staged and kept in the metadata.
unfoldable pub commit_new : Bool → Prepared → Exec AsyncWrite Committed
unfolding describe
commit_new dedupe p = do
  id ← in_registry alloc_segment
  segment ← in_transaction (append_segment id p.final_data)
  let hash = if dedupe then some p.hash else none
  modify (λ w. record w {
    staged_content = if dedupe then insert p.hash id w.staged_content else w.staged_content;
  })
  in_transaction (set_segment_metadata id (describe p.comp hash p.meta segment))
  pure (id, new_segment, length p.final_data, hash)

unfoldable pub commit_copy :
    Prepared → Option SegmentId → Option SegmentId → Exec AsyncWrite Committed
unfolding reuse_staged reuse_persistent commit_new
commit_copy p (some staged) existing = reuse_staged staged
commit_copy p none (some existing) = reuse_persistent existing
commit_copy p none none = commit_new true p

unfoldable pub commit_segment : Policy → Prepared → Exec AsyncWrite Committed
unfolding commit_copy commit_new
commit_segment policy p =
    if policy.dedupe
    then (do
      staged ← gets (λ w. lookup p.hash w.staged_content)
      existing ← gets (λ w. lookup_content p.hash w.registry)
      commit_copy p staged existing)
    else commit_new false p

unfoldable pub note_disposition :
    SegmentId → WriteDisposition → ℕ → Option ContentHash → AsyncWrite → AsyncWrite
note_disposition id new_segment len none w = record w {
  dedup_stats = record_segment len false w.dedup_stats;
}
note_disposition id new_segment len (some hash) w = record w {
  pending_registrations = w.pending_registrations ++ (hash, id) ∷ [];
  dedup_stats = record_segment len false w.dedup_stats;
}
note_disposition id reused_persistent len hash w = record w {
  dedupe_increments = w.dedupe_increments ++ id ∷ [];
  dedup_stats = record_segment len true w.dedup_stats;
}
note_disposition id reused_staged len hash w = record w {
  dedup_stats = record_segment len true w.dedup_stats;
}

-- One round of the coordinator's inner loop.
unfoldable pub commit_and_note : Policy → Prepared → Exec AsyncWrite (Unit {0})
unfolding commit_segment note_disposition
commit_and_note policy p = do
  (id, disposition, len, hash) ← commit_segment policy p
  modify (note_disposition id disposition len hash)
  modify (λ w. record w { segment_ids = w.segment_ids ++ id ∷ [] })
