-- ===== src/Refcounts/Delete.antt =====
-- `delete_capsule` gives back exactly the references of the capsule.
use space.Prelude.{
  ltb, ◌-◌, ◌<◌, ◌≡◌, refl, ◌∙◌, true, none, some, ok, err, capsule_not_found, List, [], ◌∷◌, ◌++◌,
  lookup, insert, remove, count-append, ◌==◌, nat_eq, nat_beq, bytes_eq, arith, eq_iff,
  if◌then◌else◌, lookup-insert, lookup-remove, insert-Distinct, remove-Distinct, Option-cases, inl,
  inr, ◌⊎◌,
}
use native.Mathlib.Decide.{dec_lt}
use space.Common.{SegmentId, CapsuleId, Segment}
use space.Nvram.Refcounts.{with_map, less, decrement_refcount_lem, remove_segment_lem}
use space.Registry.{CapsuleRegistry, delete_capsule as registry_delete}
use space.Gc.{World}
use space.Pipeline.Release.{discard, release, release_all, delete_capsule}
use space.Refcounts.{IsCounted, refs-remove}
use space.Refcounts.Trims.{
  Trims, Trims-refl, Trims-trans, TrimsMap, TrimsMap-insert, TrimsMap-remove, TrimsMap-trans,
}
use space.Refcounts.Forget.{Forgets, forget_content_lem}

module _ (s : SegmentId) (held : List SegmentId) (w : World) (inv : IsCounted (s ∷ held) w) where
  held_segment : (seg : Segment) × (lookup s w.nvram.segment_map ≡ some seg) × (0 < seg.ref_count)
  held_segment = elim (Option-cases (lookup s w.nvram.segment_map)) [
    | inl e ↦ absurd (ground (arith, inv.counted s, eq_iff s s))
    | inr (seg, e) ↦ (seg, e, inv.alive s seg e)
  ]

  -- A segment that others still refer to stays, with one reference less.
  abbrev kept : Segment → World
  kept seg = record w { nvram = with_map (insert s (less seg) w.nvram.segment_map) w.nvram }

  -- The last reference takes the segment with it.
  abbrev dropped : Segment → CapsuleRegistry → World
  dropped seg r = record {
    registry = r;
    nvram = with_map (remove s (insert s (less seg) w.nvram.segment_map)) w.nvram;
  }

  module _ (seg : Segment) (e : lookup s w.nvram.segment_map ≡ some seg) where
    kept-IsCounted : 1 < seg.ref_count → IsCounted held (kept seg)
    kept-IsCounted many = record {
      layout = record {
        at_end = inv.layout.at_end;
        distinct = insert-Distinct s (less seg) w.nvram.segment_map inv.layout.distinct;
        inside = λ j t p. ground (
          arith,
          lookup-insert s j (less seg) w.nvram.segment_map,
          inv.layout.inside j t,
          inv.layout.inside s seg e,
        );
      };
      counted = λ j.
          ground
            (arith, lookup-insert s j (less seg) w.nvram.segment_map, inv.counted j, eq_iff s j);
      alive =
          λ j t p. ground (arith, lookup-insert s j (less seg) w.nvram.segment_map, inv.alive j t);
      fresh = λ j t p. ground (
        arith,
        lookup-insert s j (less seg) w.nvram.segment_map,
        inv.fresh j t,
        inv.fresh s seg e,
        eq_iff s j,
      );
      named = λ j t p. ground (
        arith,
        lookup-insert s j (less seg) w.nvram.segment_map,
        inv.named j t,
        inv.named s seg e,
        eq_iff s j,
      );
      content = λ h j p.
          let (t, found, hash) = inv.content h j p in
          elim (Option-cases (lookup j (kept seg).nvram.segment_map)) [
            | inl none_there ↦
                absurd (ground (arith, lookup-insert s j (less seg) w.nvram.segment_map))
            | inr (t', there) ↦ (
              t',
              there,
              ground (arith, lookup-insert s j (less seg) w.nvram.segment_map, eq_iff s j),
            )
          ];
      capsules_distinct = inv.capsules_distinct;
      content_distinct = inv.content_distinct;
    }

    module _ (r : CapsuleRegistry) (f : Forgets seg.content_hash s w.registry r) where
      after :
          (j : SegmentId)
          → lookup j (dropped seg r).nvram.segment_map
            ≡ (if s == j then none else lookup j w.nvram.segment_map)
      after j = ground (
        arith,
        lookup-remove s j (insert s (less seg) w.nvram.segment_map)
            (insert-Distinct s (less seg) w.nvram.segment_map inv.layout.distinct),
        lookup-insert s j (less seg) w.nvram.segment_map,
      )

      dropped-IsCounted : seg.ref_count ≡ 1 → IsCounted held (dropped seg r)
      dropped-IsCounted last = record {
        layout = record {
          at_end = inv.layout.at_end;
          distinct =
              remove-Distinct s (insert s (less seg) w.nvram.segment_map)
                (insert-Distinct s (less seg) w.nvram.segment_map inv.layout.distinct);
          inside = λ j t p. ground (arith, after j, inv.layout.inside j t);
        };
        counted = λ j. ground (arith, after j, inv.counted j, eq_iff s j, f.capsules);
        alive = λ j t p. ground (arith, after j, inv.alive j t);
        fresh = λ j t p. ground (arith, after j, inv.fresh j t, f.counter);
        named = λ j t p. ground (arith, after j, inv.named j t);
        content = λ h j p.
            let (t, found, hash) = inv.content h j (f.kept h j p) in
            (t, ground (arith, after j, eq_iff s j, f.gone h), hash);
        capsules_distinct = rw f.capsules inv.capsules_distinct;
        content_distinct = f.still_distinct;
      }

  trimmed :
      (seg : Segment)
      → lookup s w.nvram.segment_map ≡ some seg
      → TrimsMap w.nvram.segment_map (insert s (less seg) w.nvram.segment_map)
  trimmed seg e =
      TrimsMap-insert s seg (seg.ref_count - 1) (ltb 1 (seg.ref_count - 1)) w.nvram.segment_map e

  -- Giving back one held reference succeeds.
  release-IsCounted :
      (w' : World) × (release s w ≡ (ok tt, w'))
      × IsCounted held w'
      × (w'.registry.capsules ≡ w.registry.capsules)
      × Trims w w'
  unfolding release
  release-IsCounted =
      let (seg, e, pos) = held_segment in
      elim (dec_lt 1 seg.ref_count) [
        | yes many ↦ (
          kept seg,
          rw (decrement_refcount_lem s w.nvram seg e pos) (unfold discard in ground arith),
          kept-IsCounted seg e many,
          refl,
          record { file = refl; segments = trimmed seg e; content = λ h j p. p },
        )
        | no few ↦
            let log = with_map (insert s (less seg) w.nvram.segment_map) w.nvram in
            let there : lookup s log.segment_map ≡ some (less seg) =
              ground (arith, lookup-insert s s (less seg) w.nvram.segment_map, eq_iff s s) in
            let zero_left : nat_beq (seg.ref_count - 1) 0 ≡ true = ground arith in
            let (b, r, fe, f) =
              forget_content_lem seg.content_hash s (record w { nvram = log })
                inv.content_distinct in
            (
              dropped seg r,
              rw (decrement_refcount_lem s w.nvram seg e pos) (
                  unfold discard in
                  rw (zero_left, discard, fe, remove_segment_lem s log (less seg) there) refl),
              dropped-IsCounted seg e r f (omega arith),
              f.capsules,
              record {
                file = refl;
                segments = TrimsMap-trans (trimmed seg e) (
                    TrimsMap-remove s (insert s (less seg) w.nvram.segment_map)
                      (insert-Distinct s (less seg) w.nvram.segment_map inv.layout.distinct));
                content = f.kept;
              },
            )
      ]

-- Giving back every reference of a list.
pub release_all-IsCounted :
    (ids held : List SegmentId) (w : World)
    → IsCounted (ids ++ held) w
    → (w' : World) × (release_all ids w ≡ (ok tt, w'))
      × IsCounted held w'
      × (w'.registry.capsules ≡ w.registry.capsules)
      × Trims w w'
unfolding release_all
release_all-IsCounted [] held w inv = (w, refl, inv, refl, Trims-refl w)
release_all-IsCounted (id ∷ ids) held w inv =
    let (w1, e1, inv1, c1, t1) = release-IsCounted id (ids ++ held) w inv in
    let (w2, e2, inv2, c2, t2) = release_all-IsCounted ids held w1 inv1 in
    (w2, rw e1 e2, inv2, c2 ∙ c1, Trims-trans t1 t2)

-- From a world whose counts are exact, deleting a capsule that is there succeeds, removes that
-- capsule and no other, leaves the counts exact and changes of a segment only how often it is
-- referred to and whether it is marked as deduplicated; deleting a missing one fails and changes
-- nothing.
pub delete_capsule-IsCounted :
    (id : CapsuleId) (w : World)
    → IsCounted [] w
    → ((lookup id w.registry.capsules ≡ none) × (delete_capsule id w ≡ (err capsule_not_found, w)))
      ⊎ ((w' : World) × (delete_capsule id w ≡ (ok tt, w'))
          × IsCounted [] w'
          × (w'.registry.capsules ≡ remove id w.registry.capsules)
          × Trims w w')
unfolding delete_capsule registry_delete
delete_capsule-IsCounted id w inv = elim (Option-cases (lookup id w.registry.capsules)) [
  | inl e ↦ inl (e, rw e refl)
  | inr (c, e) ↦
      let w1 : World = record w {
        registry = record w.registry {
          state = record w.registry.state { capsules = remove id w.registry.capsules };
          saved = record w.registry.state { capsules = remove id w.registry.capsules };
        };
      } in
      let (w2, e2, inv2, caps, t) = release_all-IsCounted c.segments [] w1 (record {
        layout = inv.layout;
        counted = λ j. omega (
          arith,
          inv.counted j,
          refs-remove j id c w.registry.capsules e,
          count-append j c.segments [],
        );
        alive = inv.alive;
        fresh = inv.fresh;
        named = inv.named;
        content = inv.content;
        capsules_distinct = remove-Distinct id w.registry.capsules inv.capsules_distinct;
        content_distinct = inv.content_distinct;
      }) in
      inr (
        w2,
        rw e e2,
        inv2,
        caps,
        record { file = t.file; segments = t.segments; content = t.content },
      )
]
