-- ===== src/Content.antt =====
-- What the bytes of a segment stand for, and that storing other segments leaves them alone.
pub mod Prepare
pub mod Place
pub mod Chunks
pub mod Write
pub mod Capsules
pub mod Range
pub mod Trims
pub mod Failure
use space.Prelude.{
  ℕ, ◌+◌, ◌≤◌, ◌≡◌, refl, sym, ap, ◌∙◌, Bool, true, false, Option, none, some, segment_not_found,
  short_read, Result, ok, err, List, [], ◌∷◌, ◌++◌, lookup, insert, ◌==◌, nat_eq, bytes_eq, arith,
  eq_iff, if◌then◌else◌, Bool-cases, Option-cases, inl, inr, map_ok, length, lookup-insert,
  continue,
}
use space.Common.{Bytes, SegmentId, ContentHash, CompressionPolicy, Segment}
use space.Disk.{read_at, read_at-append, read_at_in, read_at-append_new}
use space.Nvram.{new_segment, read, get_segment_metadata}
use space.Nvram.Refcounts.{more}
use space.Gc.{World}
use space.Pipeline.Services.{Services}
use space.Pipeline.Read.{decrypted, expand, read_segment, open_sealed, metadata_of}
use space.Pipeline.Write.{Prepared, describe}
use space.Refcounts.{IsCounted}
use space.Refcounts.Store.{
  new_id, described, stored, stored-lookup, reused, reused-lookup, registered, describe_lem,
  new_there,
}

module _ (s : Services) where
  abbrev decoded : Segment → Option Bytes → Result Bytes
  decoded seg none = err short_read
  decoded seg (some raw) = decrypted s seg raw

  abbrev found : World → Option Segment → Result Bytes
  found w none = err segment_not_found
  found w (some seg) = decoded seg (read_at w.nvram.file seg.offset seg.len)

  -- The decrypted bytes of a segment.
  unfoldable pub plain : SegmentId → World → Result Bytes
  plain id w = found w (lookup id w.nvram.segment_map)

  pub read_segment_lem :
      (c : CompressionPolicy) (id : SegmentId) (w : World)
      → read_segment s c id w ≡ (map_ok (expand s c) (plain id w), w)
  unfolding read_segment plain read get_segment_metadata
  read_segment_lem c id w = ground arith

  -- The segments of `w` read the same in `w'`.
  pub record Keeps (w w' : World) : Type 0 where
    pub same :
        (j : SegmentId) (seg : Segment)
        → lookup j w.nvram.segment_map ≡ some seg
        → plain j w' ≡ plain j w
    pub still :
        (j : SegmentId) (seg : Segment)
        → lookup j w.nvram.segment_map ≡ some seg
        → (seg' : Segment) × (lookup j w'.nvram.segment_map ≡ some seg')

  pub Keeps-trans : {w w1 w2 : World} → Keeps w w1 → Keeps w1 w2 → Keeps w w2
  Keeps-trans {w} {w1} {w2} k l = record {
    same = λ j seg e. let (seg1, e1) = k.still j seg e in l.same j seg1 e1 ∙ k.same j seg e;
    still = λ j seg e. let (seg1, e1) = k.still j seg e in l.still j seg1 e1;
  }

  -- Every entry of the content store names a segment whose bytes have that hash.
  pub record HoldsContent (w : World) : Type 0 where
    pub at :
        (h : ContentHash) (id : SegmentId)
        → lookup h w.registry.content_store ≡ some id
        → (b : Bytes) × (plain id w ≡ ok b) × (s.hash_content b ≡ h)

  module _ (hash : Option ContentHash) (p : Prepared) (w : World) (held : List SegmentId)
      (inv : IsCounted held w) where
    pub stored-Keeps : Keeps w (stored hash p w)
    unfolding plain
    stored-Keeps = record {
      same = λ j seg e. ground (
        arith,
        stored-lookup hash p w held inv j,
        new_there hash p w held inv,
        eq_iff (new_id hash p w) j,
        inv.layout.inside j seg e,
        read_at-append w.nvram.file p.final_data seg.offset seg.len,
        read_at_in w.nvram.file seg.offset seg.len,
      );
      still = λ j seg e. (
        seg,
        ground (
          arith,
          stored-lookup hash p w held inv j,
          new_there hash p w held inv,
          eq_iff (new_id hash p w) j,
        ),
      );
    }

    -- The new segment's own bytes.
    pub plain-stored :
        (b : Bytes)
        → ((seg : Segment)
            → seg.encrypted ≡ false
            → decrypted s (describe p.comp hash p.meta seg) p.final_data ≡ ok b)
        → plain (new_id hash p w) (stored hash p w) ≡ ok b
    unfolding plain
    plain-stored b opened =
        let seg = new_segment (new_id hash p w) w.nvram.next_offset (length p.final_data) in
        let (refs1, off, len', id', hash') = describe_lem p hash seg in
        ground (
          arith,
          stored-lookup hash p w held inv (new_id hash p w),
          eq_iff (new_id hash p w) (new_id hash p w),
          off,
          len',
          opened seg refl,
          read_at-append_new w.nvram.file p.final_data w.nvram.next_offset inv.layout.at_end,
        )

  module _ (id : SegmentId) (w : World) (held : List SegmentId) (inv : IsCounted held w)
      (seg : Segment) (e : lookup id w.nvram.segment_map ≡ some seg) where
    pub reused-Keeps : Keeps w (reused id w seg)
    unfolding plain decrypted
    reused-Keeps = record {
      same = λ j t p. ground (arith, reused-lookup id w held inv seg e j, eq_iff id j);
      still = λ j t p. elim (Bool-cases (id == j)) [
        | inl hit ↦ (more seg, ground (arith, reused-lookup id w held inv seg e j))
        | inr miss ↦ (t, ground (arith, reused-lookup id w held inv seg e j))
      ];
    }
