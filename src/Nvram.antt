-- ===== src/Nvram.antt =====
-- crates/nvram-sim/src/lib.rs, the log: a data file, the segment map, the next free offset, and the
-- segment map as it was last saved. The locks make each method atomic.
pub mod Transaction
pub mod Layout
pub mod Refcounts
use space.Prelude.{
  ℕ, ◌+◌, ◌-◌, ◌%◌, String, Bool, true, false, Option, none, some, Error, segment_not_found,
  already_zero, io_failed, short_read, Result, ok, err, Exec, continue, ◌>>=◌, ◌>>◌, pure, raise,
  lift, gets, modify, or_err, Map, List, values, keys, lookup, insert, remove, ltb, nat_beq, nat_eq,
  if◌then◌else◌, length,
}
use space.Common.{Bytes, SegmentId, Segment, no_algorithm, u32_mod, u64_mod, saturating_inc}
use space.Disk.{write_at, read_at}

pub record NvramLog : Type 0 where
  pub file : Bytes
  pub segment_map : Map SegmentId Segment
  pub next_offset : ℕ
  pub saved : Map SegmentId Segment

-- What the operating system does in one call of a method: `write = some f` says that a seek, write
-- or sync failed and left the file as `f`; `save` says whether the map file was written.
pub record Io : Type 0 where
  pub write : Option Bytes
  pub save : Bool

abbrev pub fine : Io
fine = record { write = none; save = true }

-- The files are there and the map file parses.
unfoldable pub open_log : Bytes → Map SegmentId Segment → NvramLog
open_log file saved = record {
  file = file;
  segment_map = saved;
  next_offset = length file;
  saved = saved;
}

unfoldable pub save_segment_map : Io → Exec NvramLog (Unit {0})
save_segment_map io log =
    if io.save then (ok tt, record log { saved = log.segment_map }) else (err io_failed, log)

-- A segment as `append` and `append_segment` make it.
abbrev pub new_segment : SegmentId → ℕ → ℕ → Segment
new_segment id offset len = record {
  id = id;
  offset = offset;
  len = len;
  compressed = false;
  compression_algo = no_algorithm;
  content_hash = none;
  ref_count = 1;
  deduplicated = false;
  access_count = 0;
  encryption_version = none;
  key_version = none;
  tweak_nonce = none;
  integrity_tag = none;
  encrypted = false;
  pq_ciphertext = none;
  pq_nonce = none;
}

write_data : Io → ℕ → Bytes → Exec NvramLog (Unit {0})
write_data io offset bytes log = elim io.write [
  | none ↦ (ok tt, record log { file = write_at log.file offset bytes })
  | some f ↦ (err io_failed, record log { file = f })
]

unfoldable pub put_segment : SegmentId → Segment → NvramLog → NvramLog
put_segment id seg log = record log { segment_map = insert id seg log.segment_map }

unfoldable pub append : Io → SegmentId → Bytes → Exec NvramLog Segment
unfolding write_data put_segment save_segment_map
append io id bytes = do
  offset ← gets (λ log. log.next_offset)
  write_data io offset bytes
  let segment = new_segment id offset (length bytes % u32_mod)
  modify (λ log. record log { next_offset = (log.next_offset + length bytes) % u64_mod })
  modify (put_segment id segment)
  save_segment_map io
  pure segment

unfoldable pub get_segment_metadata : SegmentId → Exec NvramLog Segment
get_segment_metadata id log = lift (or_err segment_not_found (lookup id log.segment_map)) log

unfoldable pub increment_refcount : Io → SegmentId → Exec NvramLog Segment
unfolding get_segment_metadata put_segment save_segment_map
increment_refcount io id = do
  segment ← get_segment_metadata id
  let refs = saturating_inc segment.ref_count
  let updated = record segment {
    ref_count = refs;
    deduplicated = ltb 1 refs;
    access_count = saturating_inc segment.access_count;
  }
  modify (put_segment id updated)
  save_segment_map io
  pure updated

unfoldable pub decrement_refcount : Io → SegmentId → Exec NvramLog Segment
unfolding get_segment_metadata put_segment save_segment_map
decrement_refcount io id = do
  segment ← get_segment_metadata id
  let refs = segment.ref_count - 1
  let updated = record segment { ref_count = refs; deduplicated = ltb 1 refs }
  if nat_beq segment.ref_count 0
      then raise already_zero
      else do modify (put_segment id updated); save_segment_map io; pure updated

save_if_removed : Io → Option Segment → Exec NvramLog (Option Segment)
save_if_removed io none = pure none
save_if_removed io (some segment) = do save_segment_map io; pure (some segment)

unfoldable pub remove_segment : Io → SegmentId → Exec NvramLog (Option Segment)
unfolding save_if_removed save_segment_map
remove_segment io id = do
  removed ← gets (λ log. lookup id log.segment_map)
  modify (λ log. record log { segment_map = remove id log.segment_map })
  save_if_removed io removed

unfoldable pub read : SegmentId → Exec NvramLog Bytes
unfolding get_segment_metadata
read id = do
  segment ← get_segment_metadata id
  file ← gets (λ log. log.file)
  lift (or_err short_read (read_at file segment.offset segment.len))

unfoldable pub update_segment_metadata : Io → SegmentId → Segment → Exec NvramLog (Unit {0})
unfolding put_segment save_segment_map
update_segment_metadata io id segment = do modify (put_segment id segment); save_segment_map io

abbrev pub list_segments : NvramLog → List Segment
list_segments log = values log.segment_map

abbrev pub list_segment_ids : NvramLog → List SegmentId
list_segment_ids log = keys log.segment_map
