-- ===== src/Refcounts.antt =====
-- The invariant that ties the registry to the log: every segment's reference count is the number of
-- places where a capsule lists it.
pub mod Forget
pub mod Delete
pub mod Trims
pub mod Frame
pub mod Listed
pub mod Sweep
pub mod Tally
pub mod Recover
pub mod Store
use space.Prelude.{
  ℕ, ◌+◌, ◌<◌, ◌≡◌, refl, Option, none, some, List, [], ◌∷◌, Map, lookup, insert, remove, Distinct,
  count, nat_eq, bytes_eq, arith, eq_iff, if◌then◌else◌,
}
use space.Common.{SegmentId, CapsuleId, ContentHash, Capsule, Segment}
use space.Nvram.Layout.{IsLaidOut}
use space.Gc.{World}

-- How often the capsules list a segment.
unfoldable pub refs : SegmentId → Map CapsuleId Capsule → ℕ
refs s [] = 0
refs s ((id, c) ∷ rest) = count s c.segments + refs s rest

abbrev pub ref_count_of : Option Segment → ℕ
ref_count_of none = 0
ref_count_of (some segment) = segment.ref_count

-- `held` lists the references that an operation under way has taken or not yet given back.
pub record IsCounted (held : List SegmentId) (w : World) : Type 0 where
  pub layout : IsLaidOut w.nvram
  pub counted :
      (s : SegmentId)
      → ref_count_of (lookup s w.nvram.segment_map) ≡ refs s w.registry.capsules + count s held
  pub alive :
      (s : SegmentId) (seg : Segment) → lookup s w.nvram.segment_map ≡ some seg → 0 < seg.ref_count
  pub fresh :
      (s : SegmentId) (seg : Segment)
      → lookup s w.nvram.segment_map ≡ some seg
      → s < w.registry.next_segment_id
  pub named : (s : SegmentId) (seg : Segment) → lookup s w.nvram.segment_map ≡ some seg → seg.id ≡ s
  pub content :
      (h : ContentHash) (s : SegmentId)
      → lookup h w.registry.content_store ≡ some s
      → (seg : Segment) × (lookup s w.nvram.segment_map ≡ some seg) × (seg.content_hash ≡ some h)
  pub capsules_distinct : Distinct w.registry.capsules
  pub content_distinct : Distinct w.registry.content_store

pub refs-remove :
    (s : SegmentId) (id : CapsuleId) (c : Capsule) (m : Map CapsuleId Capsule)
    → lookup id m ≡ some c
    → refs s (remove id m) + count s c.segments ≡ refs s m
unfolding refs lookup remove
refs-remove s id c [] h = cc
refs-remove s id c ((j, d) ∷ m) h = ground (arith, refs-remove s id c m)

pub refs-insert :
    (s : SegmentId) (id : CapsuleId) (c : Capsule) (m : Map CapsuleId Capsule)
    → lookup id m ≡ none
    → refs s (insert id c m) ≡ refs s m + count s c.segments
unfolding refs lookup insert
refs-insert s id c [] h = omega arith
refs-insert s id c ((j, d) ∷ m) h = ground (arith, refs-insert s id c m)
