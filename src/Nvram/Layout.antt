-- ===== src/Nvram/Layout.antt =====
-- Where the log's segments lie in the file: appends go to the end and keep what is stored.
use space.Prelude.{
  ◌+◌, ◌%◌, ◌≤◌, ◌<◌, ◌≡◌, ◌≢◌, refl, some, ok, lookup, insert, Distinct, lookup-insert,
  insert-Distinct, nat_eq, eq_iff, length, length-append, arith, ◌++◌,
}
use space.Common.{Bytes, SegmentId, Segment, u32_mod, u64_mod}
use space.Disk.{write_at-end, read_at-append, read_at_in, read_at-append_new}
use space.Nvram.{NvramLog, fine, new_segment, append, read}

-- The file ends at the next offset, and every segment lies inside it.
pub record IsLaidOut (log : NvramLog) : Type 0 where
  pub at_end : log.next_offset ≡ length log.file
  pub distinct : Distinct log.segment_map
  pub inside :
      (id : SegmentId) (seg : Segment)
      → lookup id log.segment_map ≡ some seg
      → seg.offset + seg.len ≤ length log.file

-- The log after an append that the disk carries out.
abbrev pub appended : SegmentId → Bytes → NvramLog → NvramLog
appended id bytes log =
    let segments = insert id (new_segment id log.next_offset (length bytes)) log.segment_map in
    record {
      file = log.file ++ bytes;
      segment_map = segments;
      next_offset = log.next_offset + length bytes;
      saved = segments;
    }

module _ (id : SegmentId) (bytes : Bytes) (log : NvramLog) (laid_out : IsLaidOut log) where
  -- What `append` does to a log that is laid out, as long as lengths fit the machine integers.
  pub append-appended :
      length bytes < u32_mod
      → length log.file + length bytes < u64_mod
      → append fine id bytes log
        ≡ (ok (new_segment id log.next_offset (length bytes)), appended id bytes log)
  unfolding append
  append-appended small fits =
      let m : length bytes % u32_mod ≡ length bytes = omega arith in
      let n : (log.next_offset + length bytes) % u64_mod ≡ log.next_offset + length bytes =
        omega (arith, laid_out.at_end) in
      rw (m, n, write_at-end log.file bytes log.next_offset laid_out.at_end)

  pub appended-IsLaidOut : IsLaidOut (appended id bytes log)
  appended-IsLaidOut = record {
    at_end = omega (arith, laid_out.at_end, length-append log.file bytes);
    distinct = insert-Distinct id _ log.segment_map laid_out.distinct;
    inside = λ j seg e. ground (
      arith,
      lookup-insert id j (new_segment id log.next_offset (length bytes)) log.segment_map,
      laid_out.inside j seg,
      laid_out.at_end,
      length-append log.file bytes,
    );
  }

  pub read-appended_self : (read id (appended id bytes log)).0 ≡ ok bytes
  unfolding read
  read-appended_self = ground (
    arith,
    eq_iff id id,
    lookup-insert id id (new_segment id log.next_offset (length bytes)) log.segment_map,
    read_at-append_new log.file bytes log.next_offset laid_out.at_end,
  )

  pub read-appended_ne :
      (j : SegmentId) (seg : Segment)
      → j ≢ id
      → lookup j log.segment_map ≡ some seg
      → (read j (appended id bytes log)).0 ≡ (read j log).0
  unfolding read
  read-appended_ne j seg ne e = ground (
    arith,
    eq_iff id j,
    lookup-insert id j (new_segment id log.next_offset (length bytes)) log.segment_map,
    laid_out.inside j seg e,
    read_at-append log.file bytes seg.offset seg.len,
    read_at_in log.file seg.offset seg.len,
  )

  -- An append on a log that is laid out, of a length that fits the counters, succeeds; the new
  -- segment reads back the bytes, every other segment reads as before, and the log stays laid out.
  pub append_stores :
      length bytes < u32_mod
      → length log.file + length bytes < u64_mod
      → let (result, after) = append fine id bytes log in
        (result ≡ ok (new_segment id log.next_offset (length bytes)))
        × ((read id after).0 ≡ ok bytes)
        × ((j : SegmentId) (seg : Segment)
            → j ≢ id
            → lookup j log.segment_map ≡ some seg
            → (read j after).0 ≡ (read j log).0)
        × IsLaidOut after
  append_stores small fits =
      rw (append-appended small fits)
        (refl, read-appended_self, read-appended_ne, appended-IsLaidOut)
