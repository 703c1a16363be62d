-- ===== src/Refcounts/Store.antt =====
-- Storing a chunk as a new segment, or reusing one: each takes one reference.
use space.Prelude.{
  ℕ, ◌+◌, ◌%◌, ◌<◌, ◌≡◌, refl, ap, ◌∙◌, true, false, Option, none, some, ok, List, ◌∷◌, lookup,
  insert, ◌==◌, nat_eq, bytes_eq, arith, eq_iff, if◌then◌else◌, lookup-insert, insert-Distinct,
  Bool-cases, Option-cases, inl, inr, length, length-append,
}
use space.Common.{SegmentId, ContentHash, Segment, u32_mod, u64_mod}
use space.Nvram.{new_segment}
use space.Nvram.Layout.{appended, append-appended}
use space.Nvram.Refcounts.{with_map, more, increment_refcount_lem, update_segment_metadata_lem}
use space.Registry.{alloc_segment, register_content, lookup_content}
use space.Gc.{World}
use space.Pipeline.Write.{describe, Prepared, store_new, place}
use space.Refcounts.{ref_count_of, IsCounted}

-- The fields of a new segment that its description leaves alone or sets for good.
pub describe_lem :
    (p : Prepared) (hash : Option ContentHash) (seg : Segment)
    → let d = describe p.comp hash p.meta seg in
      (d.ref_count ≡ 1)
      × (d.offset ≡ seg.offset)
      × (d.len ≡ seg.len)
      × (d.id ≡ seg.id)
      × (d.content_hash ≡ hash)
unfolding describe
describe_lem p hash seg = ground arith

-- What one more reference needs of the counters.
pub record Room (n total : ℕ) (w : World) : Type 0 where
  pub ids : w.registry.next_segment_id + n < u64_mod
  pub counts : (s : SegmentId) → ref_count_of (lookup s w.nvram.segment_map) + n < u32_mod
  pub bytes : length w.nvram.file + total < u64_mod

module _ (hash : Option ContentHash) (p : Prepared) (w : World) where
  abbrev pub new_id : SegmentId
  new_id = w.registry.next_segment_id

  abbrev pub described : Segment
  described =
      describe p.comp hash p.meta (new_segment new_id w.nvram.next_offset (length p.final_data))

  -- The world with the new segment.
  abbrev pub stored : World
  stored = record {
    registry = record w.registry {
      state = record w.registry.state { next_segment_id = w.registry.next_segment_id + 1 };
    };
    nvram =
        let log = appended new_id p.final_data w.nvram in
        with_map (insert new_id described log.segment_map) log;
  }

  module _ (held : List SegmentId) (inv : IsCounted held w) where
    pub store_new-stored :
        w.registry.next_segment_id + 1 < u64_mod
        → length p.final_data < u32_mod
        → length w.nvram.file + length p.final_data < u64_mod
        → store_new hash p w ≡ (ok new_id, stored)
    unfolding store_new alloc_segment
    store_new-stored ids small fits =
        let m : (w.registry.next_segment_id + 1) % u64_mod ≡ w.registry.next_segment_id + 1 =
          omega arith in
        rw (append-appended new_id p.final_data w.nvram inv.layout small fits) (
          rw (update_segment_metadata_lem new_id described (appended new_id p.final_data w.nvram))
            (rw m refl))

    pub new_there : lookup new_id w.nvram.segment_map ≡ none
    new_there = elim (Option-cases (lookup new_id w.nvram.segment_map)) [
      | inl e ↦ e
      | inr (seg, e) ↦ absurd (omega (arith, inv.fresh new_id seg e))
    ]

    pub stored-lookup :
        (j : SegmentId)
        → lookup j stored.nvram.segment_map
          ≡ (if new_id == j then some described else lookup j w.nvram.segment_map)
    stored-lookup j = ground (
      arith,
      lookup-insert new_id j described (appended new_id p.final_data w.nvram).segment_map,
      lookup-insert new_id j (new_segment new_id w.nvram.next_offset (length p.final_data))
          w.nvram.segment_map,
    )

    pub stored-IsCounted : IsCounted (new_id ∷ held) stored
    stored-IsCounted =
        let (refs1, off, len', id', hash') =
          describe_lem p hash (new_segment new_id w.nvram.next_offset (length p.final_data)) in
        record {
          layout = record {
            at_end = omega (arith, inv.layout.at_end, length-append w.nvram.file p.final_data);
            distinct = insert-Distinct new_id _ _ (insert-Distinct new_id _ _ inv.layout.distinct);
            inside = λ j t e. ground (
              arith,
              stored-lookup j,
              inv.layout.inside j t,
              inv.layout.at_end,
              length-append w.nvram.file p.final_data,
            );
          };
          counted = λ j. ground (arith, stored-lookup j, inv.counted j, eq_iff new_id j, new_there);
          alive = λ j t e. ground (arith, stored-lookup j, inv.alive j t);
          fresh = λ j t e. ground (arith, stored-lookup j, inv.fresh j t, eq_iff new_id j);
          named = λ j t e. ground (arith, stored-lookup j, inv.named j t, eq_iff new_id j);
          content = λ h j e.
              let (t, found, named_by) = inv.content h j e in
              (t, ground (arith, stored-lookup j, eq_iff new_id j, new_there), named_by);
          capsules_distinct = inv.capsules_distinct;
          content_distinct = inv.content_distinct;
        }

abbrev pub reused : SegmentId → World → Segment → World
reused id w seg = record w { nvram = with_map (insert id (more seg) w.nvram.segment_map) w.nvram }

-- One more reference to a segment that is there.
module _ (id : SegmentId) (w : World) (held : List SegmentId) (inv : IsCounted held w)
    (seg : Segment) (e : lookup id w.nvram.segment_map ≡ some seg) where
  pub reused-lookup :
      (j : SegmentId)
      → lookup j (reused id w seg).nvram.segment_map
        ≡ (if id == j then some (more seg) else lookup j w.nvram.segment_map)
  reused-lookup j = lookup-insert id j (more seg) w.nvram.segment_map

  pub reused-IsCounted : IsCounted (id ∷ held) (reused id w seg)
  reused-IsCounted = record {
    layout = record {
      at_end = inv.layout.at_end;
      distinct = insert-Distinct id _ _ inv.layout.distinct;
      inside = λ j t p.
          ground (arith, reused-lookup j, inv.layout.inside j t, inv.layout.inside id seg e);
    };
    counted = λ j. ground (arith, reused-lookup j, inv.counted j, eq_iff id j);
    alive = λ j t p. ground (arith, reused-lookup j, inv.alive j t);
    fresh =
        λ j t p. ground (arith, reused-lookup j, inv.fresh j t, inv.fresh id seg e, eq_iff id j);
    named =
        λ j t p. ground (arith, reused-lookup j, inv.named j t, inv.named id seg e, eq_iff id j);
    content = λ h j p.
        let (t, found, hash) = inv.content h j p in
        elim (Option-cases (lookup j (reused id w seg).nvram.segment_map)) [
          | inl none_there ↦ absurd (ground (arith, reused-lookup j))
          | inr (t', there) ↦ (t', there, ground (arith, reused-lookup j, eq_iff id j))
        ];
    capsules_distinct = inv.capsules_distinct;
    content_distinct = inv.content_distinct;
  }

abbrev pub registered : ContentHash → SegmentId → World → World
registered hash id w =
    let state = record w.registry.state {
      content_store = insert hash id w.registry.content_store;
    } in
    record w { registry = record { state = state; saved = state } }

-- Naming the content of a segment that is there.
module _ (hash : ContentHash) (id : SegmentId) (w : World) (held : List SegmentId)
    (inv : IsCounted held w) (seg : Segment) (e : lookup id w.nvram.segment_map ≡ some seg)
    (named_by : seg.content_hash ≡ some hash) where
  pub registered-IsCounted : IsCounted held (registered hash id w)
  registered-IsCounted = record {
    layout = inv.layout;
    counted = inv.counted;
    alive = inv.alive;
    fresh = inv.fresh;
    named = inv.named;
    content = λ h j p. elim (Bool-cases (hash == h)) [
      | inl same ↦
          let h_eq : hash ≡ h = (eq_iff hash h).0 same in
          let j_eq : id ≡ j = ground (arith, lookup-insert hash h id w.registry.content_store) in
          (seg, rw (← j_eq) e, named_by ∙ ap some h_eq)
      | inr other ↦
          inv.content h j (ground (arith, lookup-insert hash h id w.registry.content_store))
    ];
    capsules_distinct = inv.capsules_distinct;
    content_distinct = insert-Distinct hash id _ inv.content_distinct;
  }

-- The three ways in which a chunk finds its place, and what each makes of the world.
module _ (p : Prepared) (w : World) (held : List SegmentId) (inv : IsCounted held w)
    (room : Room 1 (length p.final_data) w) (small : length p.final_data < u32_mod) where
  pub place-plain :
      place false p w ≡ (ok (new_id none p w, length p.final_data, false), stored none p w)
  unfolding place
  place-plain = rw (store_new-stored none p w held inv room.ids small room.bytes) refl

  pub place-new :
      lookup p.hash w.registry.content_store ≡ none
      → place true p w ≡ (
        ok (new_id none p w, length p.final_data, false),
        registered p.hash (new_id none p w) (stored (some p.hash) p w),
      )
  unfolding place register_content lookup_content
  place-new e =
      rw (e, place, store_new-stored (some p.hash) p w held inv room.ids small room.bytes) refl

  pub place-reused :
      (id : SegmentId)
      → lookup p.hash w.registry.content_store ≡ some id
      → (seg : Segment) × (lookup id w.nvram.segment_map ≡ some seg)
        × (seg.content_hash ≡ some p.hash)
        × (place true p w ≡ (ok (id, seg.len, true), reused id w seg))
  unfolding place lookup_content
  place-reused id e =
      let (seg, there, hash) = inv.content p.hash id e in
      (
        seg,
        there,
        hash,
        rw (e, place, increment_refcount_lem id w.nvram seg there (ground (arith, room.counts id)))
            refl,
      )
