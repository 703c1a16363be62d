-- ===== src/Nvram/Refcounts.antt =====
-- What the metadata operations of the log do when the map file can be written.
use space.Prelude.{
  ◌+◌, ◌-◌, ◌<◌, ◌≡◌, refl, some, ok, Map, lookup, insert, remove, nat_eq, ltb, arith,
}
use space.Common.{SegmentId, Segment, saturating_inc, u32_mod}
use space.Nvram.{
  NvramLog, fine, increment_refcount, decrement_refcount, remove_segment, update_segment_metadata,
}

-- The log with another segment map, saved.
abbrev pub with_map : Map SegmentId Segment → NvramLog → NvramLog
with_map m log = record log { segment_map = m; saved = m }

-- A segment with one reference less, and one more.
abbrev pub less : Segment → Segment
less seg = record seg { ref_count = seg.ref_count - 1; deduplicated = ltb 1 (seg.ref_count - 1) }

abbrev pub more : Segment → Segment
more seg = record seg {
  ref_count = seg.ref_count + 1;
  deduplicated = ltb 1 (seg.ref_count + 1);
  access_count = saturating_inc seg.access_count;
}

module _ (id : SegmentId) (log : NvramLog) (seg : Segment)
    (e : lookup id log.segment_map ≡ some seg) where
  pub decrement_refcount_lem :
      0 < seg.ref_count
      → decrement_refcount fine id log
        ≡ (ok (less seg), with_map (insert id (less seg) log.segment_map) log)
  unfolding decrement_refcount
  decrement_refcount_lem h = rw e (ground arith)

  pub increment_refcount_lem :
      seg.ref_count + 1 < u32_mod
      → increment_refcount fine id log
        ≡ (ok (more seg), with_map (insert id (more seg) log.segment_map) log)
  unfolding increment_refcount
  increment_refcount_lem h = rw e (ground arith)

  pub remove_segment_lem :
      remove_segment fine id log ≡ (ok (some seg), with_map (remove id log.segment_map) log)
  unfolding remove_segment
  remove_segment_lem = rw e refl

pub update_segment_metadata_lem :
    (id : SegmentId) (seg : Segment) (log : NvramLog)
    → update_segment_metadata fine id seg log
      ≡ (ok tt, with_map (insert id seg log.segment_map) log)
unfolding update_segment_metadata
update_segment_metadata_lem id seg log = refl
