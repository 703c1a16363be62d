-- ===== src/Storage/Persistent/Offsets.antt =====
-- Where the segments of a transaction land in the file (crates/storage/src/lib.rs over
-- crates/nvram-sim/src/lib.rs, as crates/pipeline/src/lib.rs uses them).
use space.Prelude.{
  ℕ, ◌+◌, ◌%◌, ◌≤◌, ◌≡◌, ◌≢◌, Bool, refl, some, ok, err, pending_not_found, lookup, insert,
  lookup-insert, nat_eq, eq_iff, [], ◌∷◌, length, length-append, take, take-append_left, drop, ◌++◌,
  ◌∙◌, ap, arith,
}
use space.Common.{Bytes, SegmentId, ContentHash, Segment, u32_mod, u64_mod}
use space.Disk.{write_at, write_at-start, read_at, read_at_in}
use space.Nvram.{NvramLog, Io, fine, read, get_segment_metadata, new_segment, save_segment_map}
use space.Nvram.Transaction.{
  begin_transaction, ensure_active, append_segment, set_segment_metadata, with_segment_mut,
  change_pending, commit, rollback, drop_txn, set_next_offset, write_pending, insert_pending,
  finish, PendingSegment,
}
use space.Modular.Encryptors.{EncryptionSummary}
use space.Modular.Write.{CompressionSummary, describe_segment}
use space.Storage.{in_txn}
use space.Storage.Laws.{puts, describes, calls_then_commit}
use space.Storage.Persistent.{
  nvram_backend, nvram_txn_append, nvram_txn_set_metadata, begin_nvram, nvram_txn_commit,
  remove_segments,
}

-- A transaction that only changes the metadata of a stored segment is refused, and changes
-- nothing: the transaction looks among the segments that it appended itself.
describe_stored :
    (io : Io) (id : SegmentId) (segment : Segment) (log : NvramLog)
    → in_txn
        (nvram_backend io)
        (calls_then_commit (nvram_backend io) (describes id segment ∷ []))
        log
      ≡ (err pending_not_found, log)
unfolding in_txn nvram_backend nvram_txn_set_metadata begin_nvram begin_transaction
    set_segment_metadata with_segment_mut ensure_active change_pending drop_txn rollback
    set_next_offset
describe_stored io id segment log = refl

replaced_only :
    (id : SegmentId) (segment : Segment) (p : PendingSegment)
    → p.segment.id ≡ id
    → change_pending id (λ old. segment) (p ∷ []) ≡ some (record p { segment = segment } ∷ [])
unfolding change_pending
replaced_only id segment p e = ground (arith, eq_iff p.segment.id id)

-- A segment that a transaction appends and describes is written where the description says.
put_described :
    (id : SegmentId) (b : ℕ) (bytes : Bytes) (segment : Segment) (log : NvramLog)
    → segment.id ≡ id
    → in_txn
        (nvram_backend fine)
        (calls_then_commit (nvram_backend fine) (puts id (b ∷ bytes) ∷ describes id segment ∷ []))
        log
      ≡ (
        ok tt,
        record log {
          file = write_at log.file segment.offset (b ∷ bytes);
          next_offset = (log.next_offset + length (b ∷ bytes)) % u64_mod;
          segment_map = insert id segment log.segment_map;
          saved = insert id segment log.segment_map;
        },
      )
unfolding in_txn nvram_backend nvram_txn_append nvram_txn_set_metadata begin_nvram nvram_txn_commit
    begin_transaction append_segment set_segment_metadata with_segment_mut ensure_active drop_txn
    commit set_next_offset write_pending insert_pending finish save_segment_map remove_segments
put_described id b bytes segment log e =
    rw
      (
        replaced_only id segment
            (record {
              segment = new_segment id log.next_offset (length (b ∷ bytes) % u32_mod);
              bytes = b ∷ bytes;
            })
            refl,
        e,
      )
      refl

-- A new segment, described as the modular pipeline describes it, overwrites what a stored segment
-- with offset 0 keeps at the start of the log's file: after the transaction, which reports success,
-- the other segment, if it is no longer than the new one, reads as the beginning of the new one.
pub new_segment_overwrites :
    (id other : SegmentId) (b : ℕ) (bytes : Bytes) (summary : CompressionSummary)
    (hash : ContentHash) (sealed : EncryptionSummary) (encrypted : Bool) (stored : Segment)
    (log : NvramLog)
    → other ≢ id
    → lookup other log.segment_map ≡ some stored
    → stored.offset ≡ 0
    → stored.len ≤ length (b ∷ bytes)
    → (log' : NvramLog) × (in_txn
          (nvram_backend fine)
          (calls_then_commit (nvram_backend fine) (
            puts id (b ∷ bytes)
            ∷ describes id (describe_segment id (b ∷ bytes) summary hash sealed encrypted)
            ∷ []))
          log
        ≡ (ok tt, log'))
      × (read other log' ≡ (ok (take stored.len (b ∷ bytes)), log'))
unfolding read get_segment_metadata read_at
new_segment_overwrites id other b bytes summary hash sealed encrypted stored log differ there
      zero_old short =
    let new = b ∷ bytes in
    let segment = describe_segment id new summary hash sealed encrypted in
    let log' : NvramLog = record log {
      file = write_at log.file 0 new;
      next_offset = (log.next_offset + length new) % u64_mod;
      segment_map = insert id segment log.segment_map;
      saved = insert id segment log.segment_map;
    } in
    let kept : lookup other log'.segment_map ≡ some stored =
      ground (arith, lookup-insert id other segment log.segment_map, eq_iff id other, there) in
    let again : read_at (write_at log.file 0 new) 0 stored.len ≡ some (take stored.len new) =
      rw (write_at-start log.file new) (
        read_at_in (new ++ drop (length new) log.file) 0 stored.len
          (omega (arith, length-append new (drop (length new) log.file)))
        ∙ ap some (take-append_left stored.len new (drop (length new) log.file) short)) in
    (log', put_described id b bytes segment log refl, rw (kept, zero_old, again) refl)

-- A capsule's second reference to a stored segment is a transaction that only describes it.
-- Whatever happens to the disk, over the log it is refused as not pending, and the log is as it
-- was: neither a duplicate chunk can be stored nor a shared segment released.
pub shared_segment_refused :
    (io : Io) (id : SegmentId) (segment stored : Segment) (log : NvramLog)
    → lookup id log.segment_map ≡ some stored
    → (in_txn
          (nvram_backend io)
          (calls_then_commit (nvram_backend io) (describes id segment ∷ []))
          log
        ≡ (err pending_not_found, log))
      × ((nvram_backend io).metadata id log ≡ (ok stored, log))
unfolding nvram_backend get_segment_metadata
shared_segment_refused io id segment stored log there =
    (describe_stored io id segment log, rw there refl)
