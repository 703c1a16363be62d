-- ===== src/Refcounts/Sweep.antt =====
-- The sweep removes the segments that no capsule lists, and nothing else.
use space.Prelude.{
  ℕ, ◌+◌, ◌<◌, ◌≡◌, refl, none, some, ok, List, [], ◌∷◌, lookup, remove, Distinct, count, ◌==◌,
  nat_eq, nat_beq, bytes_eq, arith, eq_iff, if◌then◌else◌, lookup-remove, remove-Distinct,
  Bool-cases, inl, inr, ◌⊎◌, values,
}
use space.Common.{SegmentId, ContentHash, Segment}
use space.Nvram.Layout.{IsLaidOut}
use space.Nvram.Refcounts.{with_map, remove_segment_lem}
use space.Registry.{CapsuleRegistry}
use space.Gc.{World, reclaim_segment, sweep_list, sweep}
use space.Refcounts.{IsCounted, refs, ref_count_of}
use space.Refcounts.Forget.{Forgets, forget_content_lem}
use space.Refcounts.Trims.{Trims, Trims-refl, Trims-trans, TrimsMap-remove}
use space.Refcounts.Frame.{Sweeps, Sweeps-refl, Sweeps-trans}
use space.Refcounts.Listed.{Listed, Listed-change, ids_of, IsNamed, values-Listed, count-values}

-- The counts are right, and only segments still to be walked may have none.
pub record Sweeping (segs : List Segment) (w : World) : Type 0 where
  pub layout : IsLaidOut w.nvram
  pub counted :
      (s : SegmentId) → ref_count_of (lookup s w.nvram.segment_map) ≡ refs s w.registry.capsules
  pub alive :
      (s : SegmentId) (seg : Segment)
      → lookup s w.nvram.segment_map ≡ some seg
      → (0 < seg.ref_count) ⊎ (0 < count s (ids_of segs))
  pub fresh : (s : SegmentId) → 0 < refs s w.registry.capsules → s < w.registry.next_segment_id
  pub named : (s : SegmentId) (seg : Segment) → lookup s w.nvram.segment_map ≡ some seg → seg.id ≡ s
  pub content :
      (h : ContentHash) (s : SegmentId)
      → lookup h w.registry.content_store ≡ some s
      → (seg : Segment) × (lookup s w.nvram.segment_map ≡ some seg) × (seg.content_hash ≡ some h)
  pub capsules_distinct : Distinct w.registry.capsules
  pub content_distinct : Distinct w.registry.content_store
  pub listed : Listed segs w.nvram.segment_map

swept-IsCounted : (w : World) → Sweeping [] w → IsCounted [] w
swept-IsCounted w q = record {
  layout = q.layout;
  counted = λ s. omega (arith, q.counted s);
  alive = λ s seg e. ground (arith, q.alive s seg);
  fresh = λ s seg e. ground (arith, q.alive s seg, q.counted s, q.fresh s);
  named = q.named;
  content = q.content;
  capsules_distinct = q.capsules_distinct;
  content_distinct = q.content_distinct;
}

module _ (seg : Segment) (rest : List Segment) (w : World) (q : Sweeping (seg ∷ rest) w) where
  kept-Sweeping : 0 < seg.ref_count → Sweeping rest w
  kept-Sweeping some_left = record {
    layout = q.layout;
    counted = q.counted;
    alive = λ s t e. ground (arith, q.alive s t, q.listed.0, eq_iff seg.id s);
    fresh = q.fresh;
    named = q.named;
    content = q.content;
    capsules_distinct = q.capsules_distinct;
    content_distinct = q.content_distinct;
    listed = q.listed.2;
  }

  abbrev without : CapsuleRegistry → World
  without r = record { registry = r; nvram = with_map (remove seg.id w.nvram.segment_map) w.nvram }

  module _ (r : CapsuleRegistry) (f : Forgets seg.content_hash seg.id w.registry r) where
    after :
        (j : SegmentId)
        → lookup j (without r).nvram.segment_map
          ≡ (if seg.id == j then none else lookup j w.nvram.segment_map)
    after j = lookup-remove seg.id j w.nvram.segment_map q.layout.distinct

    without-Sweeping : seg.ref_count ≡ 0 → Sweeping rest (without r)
    without-Sweeping zero_left = record {
      layout = record {
        at_end = q.layout.at_end;
        distinct = remove-Distinct seg.id w.nvram.segment_map q.layout.distinct;
        inside = λ j t p. ground (arith, after j, q.layout.inside j t);
      };
      counted = λ j. ground (arith, after j, q.counted j, eq_iff seg.id j, q.listed.0, f.capsules);
      alive = λ j t p. ground (arith, after j, q.alive j t, eq_iff seg.id j);
      fresh = λ j h. ground (arith, q.fresh j, f.capsules, f.counter);
      named = λ j t p. ground (arith, after j, q.named j t);
      content = λ h j p.
          let (t, found, hash) = q.content h j (f.kept h j p) in
          (t, ground (arith, after j, eq_iff seg.id j, f.gone h, q.listed.0), hash);
      capsules_distinct = rw f.capsules q.capsules_distinct;
      content_distinct = f.still_distinct;
      listed =
          Listed-change rest w.nvram.segment_map (without r).nvram.segment_map
            (λ j h. ground (arith, after j, eq_iff seg.id j, q.listed.1)) q.listed.2;
    }

    without-Trims : Trims w (without r)
    without-Trims = record {
      file = refl;
      segments = TrimsMap-remove seg.id w.nvram.segment_map q.layout.distinct;
      content = f.kept;
    }

    without-Sweeps : seg.ref_count ≡ 0 → Sweeps w (without r)
    without-Sweeps zero_left = record {
      else_same = record {
        capsules = f.capsules;
        counter = f.counter;
        file = refl;
        next_offset = refl;
        registry_saved = f.written;
        map_saved = inr refl;
      };
      stays = λ j t e pos. ground (arith, after j, eq_iff seg.id j, q.listed.0);
      was = λ j t e. ground (arith, after j);
      content_stays =
          λ h j t e there pos. f.others h j (λ same. ground (arith, same, there, q.listed.0)) e;
      content_was = f.kept;
    }

  reclaim-without :
      (r : CapsuleRegistry) × (reclaim_segment seg w ≡ (ok tt, without r))
      × Forgets seg.content_hash seg.id w.registry r
  unfolding reclaim_segment
  reclaim-without =
      let (b, r, fe, f) = forget_content_lem seg.content_hash seg.id w q.content_distinct in
      (r, rw (fe, remove_segment_lem seg.id w.nvram seg q.listed.0) refl, f)

-- How many of the segments nobody refers to.
unfoldable pub dead : List Segment → ℕ
dead [] = 0
dead (seg ∷ rest) = (if nat_beq seg.ref_count 0 then 1 else 0) + dead rest

sweep_list-Sweeping :
    (segs : List Segment) (w : World)
    → Sweeping segs w
    → (w' : World) × (sweep_list segs w ≡ (ok (dead segs), w'))
      × Sweeping [] w'
      × Trims w w'
      × Sweeps w w'
unfolding sweep_list dead
sweep_list-Sweeping [] w q = (w, refl, q, Trims-refl w, Sweeps-refl w)
sweep_list-Sweeping (seg ∷ rest) w q = elim (Bool-cases (nat_beq seg.ref_count 0)) [
  | inl none_left ↦
      let (r, reclaimed, f) = reclaim-without seg rest w q in
      let (w', e, q', t, u) =
        sweep_list-Sweeping rest (without seg rest w q r)
          (without-Sweeping seg rest w q r f (ground arith)) in
      (
        w',
        rw (none_left, reclaimed, e) (ground arith),
        q',
        Trims-trans (without-Trims seg rest w q r f) t,
        Sweeps-trans (without-Sweeps seg rest w q r f (ground arith)) u,
      )
  | inr some_left ↦
      let (w', e, q', t, u) =
        sweep_list-Sweeping rest w (kept-Sweeping seg rest w q (ground arith)) in
      (w', rw (some_left, e) (ground arith), q', t, u)
]

-- What the sweep may find: counts that are right, of which some may be zero.
pub record IsSweepable (w : World) : Type 0 where
  pub layout : IsLaidOut w.nvram
  pub counted :
      (s : SegmentId) → ref_count_of (lookup s w.nvram.segment_map) ≡ refs s w.registry.capsules
  pub fresh : (s : SegmentId) → 0 < refs s w.registry.capsules → s < w.registry.next_segment_id
  pub named : (s : SegmentId) (seg : Segment) → lookup s w.nvram.segment_map ≡ some seg → seg.id ≡ s
  pub content :
      (h : ContentHash) (s : SegmentId)
      → lookup h w.registry.content_store ≡ some s
      → (seg : Segment) × (lookup s w.nvram.segment_map ≡ some seg) × (seg.content_hash ≡ some h)
  pub capsules_distinct : Distinct w.registry.capsules
  pub content_distinct : Distinct w.registry.content_store

-- From a world whose counts are right, with segments that nobody refers to among them, the sweep
-- reports how many those are and removes them with their entries in the content store: afterwards
-- every segment left has its exact, positive count. The segments with references are left as they
-- were in every field, with their entries in the content store, and so are the capsules, the next
-- segment id, the bytes of the log and its next offset; what has changed has been saved.
pub sweep-IsCounted :
    (w : World)
    → IsSweepable w
    → (w' : World) × (sweep w ≡ (ok (dead (values w.nvram.segment_map)), w'))
      × IsCounted [] w'
      × Trims w w'
      × Sweeps w w'
unfolding sweep
sweep-IsCounted w q =
    let named : IsNamed w.nvram.segment_map = unfold IsNamed in q.named in
    let (w', e, q', t, u) = sweep_list-Sweeping (values w.nvram.segment_map) w (record {
      layout = q.layout;
      counted = q.counted;
      alive = λ s seg p. inr ((count-values w.nvram.segment_map s named q.layout.distinct).1 seg p);
      fresh = q.fresh;
      named = q.named;
      content = q.content;
      capsules_distinct = q.capsules_distinct;
      content_distinct = q.content_distinct;
      listed = values-Listed w.nvram.segment_map named q.layout.distinct;
    }) in
    (w', e, swept-IsCounted w' q', t, u)
