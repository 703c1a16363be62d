-- ===== src/Refcounts/Recover.antt =====
-- `reconcile_refcounts` makes the counts of a loaded registry and log exact.
use space.Prelude.{
  ℕ, ◌+◌, ◌<◌, ◌≡◌, refl, sym, ap, ◌∙◌, some, some_inj, true, false, ok, List, [], ◌∷◌, Map, lookup,
  insert, Distinct, count, ◌==◌, nat_eq, nat_beq, bytes_eq, ltb, arith, eq_iff, if◌then◌else◌,
  lookup-insert, insert-Distinct, Bool-cases, Option-cases, inl, inr, ◌⊎◌, values, keys,
}
use space.Common.{SegmentId, ContentHash, Segment, u32_mod}
use space.Nvram.Layout.{IsLaidOut}
use space.Nvram.Refcounts.{with_map, update_segment_metadata_lem}
use space.Gc.{World}
use space.Pipeline.Reconcile.{count_refs, expected_refs, repair, reconcile_refcounts}
use space.Refcounts.{IsCounted, refs, ref_count_of}
use space.Refcounts.Trims.{Trims, Trims-refl, Trims-trans, TrimsMap-insert, recounted}
use space.Refcounts.Frame.{
  Repairs, Repairs-refl, Repairs-trans, corrected, Reconciles, Sweeps, SameElse-trans,
}
use space.Refcounts.Listed.{Listed, Listed-change, ids_of, IsNamed, values-Listed, count-values}
use space.Refcounts.Sweep.{sweep-IsCounted}
use space.Refcounts.Tally.{expected_refs-refs}

-- A registry and a log that fit each other, whatever the counts are: capsules list segments that
-- are there, with ids already given out, and the content store names segments with its hashes.
pub record IsLoadable (w : World) : Type 0 where
  pub layout : IsLaidOut w.nvram
  pub there :
      (s : SegmentId)
      → 0 < refs s w.registry.capsules
      → (seg : Segment) × (lookup s w.nvram.segment_map ≡ some seg)
  pub fresh : (s : SegmentId) → 0 < refs s w.registry.capsules → s < w.registry.next_segment_id
  pub small : (s : SegmentId) → refs s w.registry.capsules + 1 < u32_mod
  pub named : (s : SegmentId) (seg : Segment) → lookup s w.nvram.segment_map ≡ some seg → seg.id ≡ s
  pub content :
      (h : ContentHash) (s : SegmentId)
      → lookup h w.registry.content_store ≡ some s
      → (seg : Segment) × (lookup s w.nvram.segment_map ≡ some seg) × (seg.content_hash ≡ some h)
  pub capsules_distinct : Distinct w.registry.capsules
  pub content_distinct : Distinct w.registry.content_store

-- Only the counts of segments still to be walked may be wrong.
record Repairing (segs : List Segment) (w : World) : Type 0 where
  loadable : IsLoadable w
  right :
      (s : SegmentId)
      → (ref_count_of (lookup s w.nvram.segment_map) ≡ refs s w.registry.capsules)
        ⊎ (0 < count s (ids_of segs))
  listed : Listed segs w.nvram.segment_map

module _ (seg : Segment) (rest : List Segment) (w : World) (q : Repairing (seg ∷ rest) w) where
  kept-Repairing : seg.ref_count ≡ refs seg.id w.registry.capsules → Repairing rest w
  kept-Repairing exact = record {
    loadable = q.loadable;
    right = λ s. ground (arith, q.right s, q.listed.0, eq_iff seg.id s, exact);
    listed = q.listed.2;
  }

  abbrev fixed : Segment
  fixed = let n = refs seg.id w.registry.capsules in recounted n (ltb 1 n) seg

  abbrev repaired : World
  repaired = record w { nvram = with_map (insert seg.id fixed w.nvram.segment_map) w.nvram }

  after :
      (j : SegmentId)
      → lookup j repaired.nvram.segment_map
        ≡ (if seg.id == j then some fixed else lookup j w.nvram.segment_map)
  after j = lookup-insert seg.id j fixed w.nvram.segment_map

  repaired-Trims : Trims w repaired
  repaired-Trims = record {
    file = refl;
    segments =
        let n = refs seg.id w.registry.capsules in
        TrimsMap-insert seg.id seg n (ltb 1 n) w.nvram.segment_map q.listed.0;
    content = λ h s e. e;
  }

  repaired-Repairs :
      nat_beq seg.ref_count (refs seg.id w.registry.capsules) ≡ false → Repairs w repaired
  repaired-Repairs wrong = record {
    else_same = record {
      capsules = refl;
      counter = refl;
      file = refl;
      next_offset = refl;
      registry_saved = inl refl;
      map_saved = inr refl;
    };
    registry = refl;
    segments = λ j t e. elim (Bool-cases (nat_beq seg.id j)) [
      | inl same ↦
          let k : seg.id ≡ j = ground (arith, same) in
          let this : t ≡ seg =
            some_inj (sym e ∙ ap (λ i. lookup i w.nvram.segment_map) (sym k) ∙ q.listed.0) in
          let right : corrected (refs seg.id w.registry.capsules) seg ≡ fixed = rw wrong refl in
          inr (
            after j
            ∙ (rw same refl)
            ∙ ap some (sym right ∙ (λ i. corrected (refs (k i) w.registry.capsules) (sym this i))))
      | inr other ↦ inl (after j ∙ rw other e)
    ];
    was = λ j e. ground (arith, after j, eq_iff seg.id j, q.listed.0);
  }

  repaired-Repairing : Repairing rest repaired
  repaired-Repairing = record {
    loadable = record {
      layout = record {
        at_end = q.loadable.layout.at_end;
        distinct = insert-Distinct seg.id fixed w.nvram.segment_map q.loadable.layout.distinct;
        inside = λ j t p. ground (
          arith,
          after j,
          q.loadable.layout.inside j t,
          q.loadable.layout.inside seg.id seg q.listed.0,
        );
      };
      there = λ j h.
          let (t, found) = q.loadable.there j h in
          elim (Bool-cases (nat_beq seg.id j)) [
            | inl same ↦ (fixed, ground (arith, after j))
            | inr other ↦ (t, ground (arith, after j))
          ];
      fresh = q.loadable.fresh;
      small = q.loadable.small;
      named = λ j t p. ground (arith, after j, q.loadable.named j t, eq_iff seg.id j);
      content = λ h j p.
          let (t, found, hash) = q.loadable.content h j p in
          elim (Bool-cases (nat_beq seg.id j)) [
            | inl same ↦
                (fixed, ground (arith, after j), ground (arith, eq_iff seg.id j, q.listed.0))
            | inr other ↦ (t, ground (arith, after j), hash)
          ];
      capsules_distinct = q.loadable.capsules_distinct;
      content_distinct = q.loadable.content_distinct;
    };
    right = λ s. ground (arith, after s, q.right s, eq_iff seg.id s);
    listed =
        Listed-change rest w.nvram.segment_map repaired.nvram.segment_map
          (λ j h. ground (arith, after j, eq_iff seg.id j, q.listed.1)) q.listed.2;
  }

repair-Repairing :
    (counts : Map SegmentId ℕ) (segs : List Segment) (w : World)
    → ((j : SegmentId) → expected_refs j counts ≡ refs j w.registry.capsules)
    → Repairing segs w
    → (w' : World) × (repair counts segs w ≡ (ok tt, w'))
      × Repairing [] w'
      × Trims w w'
      × Repairs w w'
unfolding repair
repair-Repairing counts [] w tally q = (w, refl, q, Trims-refl w, Repairs-refl w)
repair-Repairing counts (seg ∷ rest) w tally q =
    let n = refs seg.id w.registry.capsules in
    let expected = tally seg.id in
    elim (Bool-cases (nat_beq seg.ref_count n)) [
      | inl exact ↦
          let (w', e, q', t, u) =
            repair-Repairing counts rest w tally (kept-Repairing seg rest w q (ground arith)) in
          (w', rw (expected, exact) e, q', t, u)
      | inr wrong ↦
          let (w', e, q', t, u) =
            repair-Repairing counts rest (repaired seg rest w q) tally
              (repaired-Repairing seg rest w q) in
          (
            w',
            rw (expected, wrong)
                (rw (update_segment_metadata_lem seg.id (fixed seg rest w q) w.nvram) e),
            q',
            Trims-trans (repaired-Trims seg rest w q) t,
            Repairs-trans (repaired-Repairs seg rest w q wrong) u,
          )
    ]

corrected-count : (n : ℕ) (seg : Segment) → (corrected n seg).ref_count ≡ n
corrected-count n seg = elim (Bool-cases (nat_beq seg.ref_count n)) [
  | inl exact ↦ rw exact (ground (arith, exact))
  | inr wrong ↦ rw wrong refl
]

module _ (w w1 : World) (u : Repairs w w1) (q1 : Repairing [] w1) where
  -- After the repair every segment has its count set right.
  lookup-repaired :
      (j : SegmentId) (seg : Segment)
      → lookup j w.nvram.segment_map ≡ some seg
      → lookup j w1.nvram.segment_map ≡ some (corrected (refs j w.registry.capsules) seg)
  lookup-repaired j seg e = elim (u.segments j seg e) [
    | inr right ↦ right
    | inl as_before ↦
        let counted : seg.ref_count ≡ refs j w1.registry.capsules =
          ground (arith, q1.right j, as_before) in
        let exact : nat_beq seg.ref_count (refs j w.registry.capsules) ≡ true =
          ground (arith, counted, ap (λ r. refs j r.capsules) u.registry) in
        as_before ∙ rw exact refl
  ]

  swept-Reconciles : IsLoadable w → (w2 : World) → Sweeps w1 w2 → IsCounted [] w2 → Reconciles w w2
  swept-Reconciles q w2 v inv =
      let n : SegmentId → ℕ = λ j. refs j w.registry.capsules in
      let was : (j : SegmentId) (seg' : Segment)
          → lookup j w2.nvram.segment_map ≡ some seg'
          → (0 < n j)
            × ((seg : Segment) × (lookup j w.nvram.segment_map ≡ some seg)
                × (seg' ≡ corrected (n j) seg)) =
        λ j seg' e. elim (Option-cases (lookup j w.nvram.segment_map)) [
          | inl gone ↦ absurd (cc (u.was j gone, v.was j seg' e))
          | inr (seg, there) ↦
              let same : seg' ≡ corrected (n j) seg =
                some_inj (sym (v.was j seg' e) ∙ lookup-repaired j seg there) in
              (
                omega (
                  arith,
                  inv.alive j seg' e,
                  ap (λ t. t.ref_count) same,
                  corrected-count (n j) seg,
                ),
                (seg, there, same),
              )
        ] in
      let store : w1.registry.content_store ≡ w.registry.content_store =
        ap (λ r. r.content_store) u.registry in
      let alive : (j : SegmentId) (seg : Segment) → 0 < n j → 0 < (corrected (n j) seg).ref_count =
        λ j seg pos. omega (arith, pos, corrected-count (n j) seg) in
      record {
        else_same = SameElse-trans u.else_same v.else_same;
        stays = λ j seg e pos.
            v.stays j (corrected (n j) seg) (lookup-repaired j seg e) (alive j seg pos);
        was = was;
        content_stays = λ h j e pos.
            let (seg, there, hash) = q.content h j e in
            v.content_stays h j (corrected (n j) seg) (ap (lookup h) store ∙ e)
              (lookup-repaired j seg there) (alive j seg pos);
        content_was = λ h j e.
            let (seg', there, hash) = inv.content h j e in
            (sym (ap (lookup h) store) ∙ v.content_was h j e, (was j seg' there).0);
      }

-- Whatever the counts of the log are, reconciling a registry and a log that fit each other
-- succeeds and makes them exact. The segments left are exactly those that some capsule lists: one
-- whose count was right is as it was in every field, another has its count set right and is marked
-- as deduplicated exactly when it is listed more than once, and nothing else of it has changed. The
-- entries left in the content store are exactly those that name such a segment. Capsules, the
-- next segment id, the bytes of the log and its next offset are as before, and what has changed
-- has been saved.
pub reconcile_refcounts-IsCounted :
    (w : World)
    → IsLoadable w
    → (w' : World) × (reconcile_refcounts w ≡ (ok tt, w'))
      × IsCounted [] w'
      × Trims w w'
      × Reconciles w w'
unfolding reconcile_refcounts
reconcile_refcounts-IsCounted w q =
    let m = w.nvram.segment_map in
    let named : IsNamed m = unfold IsNamed in q.named in
    let counts = count_refs (keys w.registry.capsules) w.registry.capsules [] in
    let (w1, e1, q1, t1, u) =
      repair-Repairing counts (values m) w
        (λ j. expected_refs-refs j w.registry.capsules q.capsules_distinct (q.small j))
        (record {
          loadable = q;
          right = λ s. elim (Option-cases (lookup s m)) [
            | inl gone ↦ inl (ground (arith, gone, q.there s))
            | inr (seg, found) ↦ inr ((count-values m s named q.layout.distinct).1 seg found)
          ];
          listed = values-Listed m named q.layout.distinct;
        }) in
    let (w2, e2, q2, t2, v) = sweep-IsCounted w1 (record {
      layout = q1.loadable.layout;
      counted = λ s. ground (arith, q1.right s);
      fresh = q1.loadable.fresh;
      named = q1.loadable.named;
      content = q1.loadable.content;
      capsules_distinct = q1.loadable.capsules_distinct;
      content_distinct = q1.loadable.content_distinct;
    }) in
    (w2, rw (e1, e2) refl, q2, Trims-trans t1 t2, swept-Reconciles w w1 u q1 q w2 v q2)
