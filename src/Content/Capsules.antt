-- ===== src/Content/Capsules.antt =====
-- Whole capsules: what is written is read back, and other capsules are left alone.
use space.Prelude.{
  ℕ, ◌<◌, ◌≡◌, refl, sym, ap, ◌∙◌, true, Result, ok, err, List, [], ◌∷◌, ◌++◌, lookup, insert,
  count, count-append, nat_eq, arith, length, some, none, Option-cases, inl, inr, eq_iff,
  lookup-insert, insert-Distinct, map_ok, ltb, Bool-cases,
}
use space.Common.{
  Bytes, SegmentId, CapsuleId, CompressionPolicy, Policy, Capsule, Segment, segment_size,
}
use space.Registry.{create_capsule_with_segments, add_deduped_bytes, lookup_capsule}
use space.Gc.{World}
use space.Pipeline.Services.{Services, DedupStats, no_stats}
use space.Pipeline.Read.{read_segments, read_capsule, expand}
use space.Pipeline.Write.{chunks, write_chunks, note_saved, write_capsule_with_policy}
use space.Refcounts.{IsCounted, refs-insert, refs-remove}
use space.Refcounts.Store.{Room}
use space.Content.{Keeps, HoldsContent, plain, read_segment_lem}
use space.Content.Prepare.{OpensSeals}
use space.Content.Chunks.{joined, joined-chunks, chunks-AllShort}
use space.Content.Write.{Acceptable, Wrote, write_chunks-Wrote}

-- The capsule that a write makes.
abbrev pub written : ℕ → CapsuleId → Bytes → Policy → List SegmentId → Capsule
written now id bytes policy ids = record {
  id = id;
  size = length bytes;
  segments = ids;
  created_at = now;
  policy = policy;
  deduped_bytes = 0;
}

abbrev pub with_capsule : CapsuleId → Capsule → World → World
with_capsule id c w =
    let state = record w.registry.state { capsules = insert id c w.registry.capsules } in
    record w { registry = record { state = state; saved = state } }

create-with_capsule :
    (now : ℕ) (id : CapsuleId) (bytes : Bytes) (policy : Policy) (ids : List SegmentId) (w : World)
    → lookup id w.registry.capsules ≡ none
    → create_capsule_with_segments true now id (length bytes) ids policy w.registry
      ≡ (ok tt, (with_capsule id (written now id bytes policy ids) w).registry)
unfolding create_capsule_with_segments
create-with_capsule now id bytes policy ids w e = rw (e, create_capsule_with_segments) refl

with_capsule-IsCounted :
    (id : CapsuleId) (c : Capsule) (w : World)
    → lookup id w.registry.capsules ≡ none
    → IsCounted (c.segments ++ []) w
    → IsCounted [] (with_capsule id c w)
with_capsule-IsCounted id c w e inv = record {
  layout = inv.layout;
  counted = λ j. omega (
    arith,
    inv.counted j,
    refs-insert j id c w.registry.capsules e,
    count-append j c.segments [],
  );
  alive = inv.alive;
  fresh = inv.fresh;
  named = inv.named;
  content = inv.content;
  capsules_distinct = insert-Distinct id c w.registry.capsules inv.capsules_distinct;
  content_distinct = inv.content_distinct;
}

module _ (s : Services) where
  note_saved_lem :
      (id : CapsuleId) (stats : DedupStats) (w : World)
      → lookup id w.registry.capsules ≡ none
      → note_saved s id stats w ≡ (ok tt, w)
  unfolding note_saved add_deduped_bytes
  note_saved_lem id stats w e = elim (Bool-cases (ltb 0 stats.bytes_saved)) [
    | inl some_saved ↦ rw (some_saved, e, add_deduped_bytes) refl
    | inr none_saved ↦ rw none_saved refl
  ]

  abbrev combine : Result Bytes → Result Bytes → Result Bytes
  combine (err e) rest = err e
  combine (ok b) (err e) = err e
  combine (ok b) (ok rest) = ok (b ++ rest)

  pub gather : CompressionPolicy → List SegmentId → World → Result Bytes
  gather c [] w = ok []
  gather c (id ∷ ids) w = combine (map_ok (expand s c) (plain s id w)) (gather c ids w)

  pub read_segments-gather :
      (c : CompressionPolicy) (ids : List SegmentId) (w : World)
      → read_segments s c ids w ≡ (gather c ids w, w)
  unfolding read_segments gather
  read_segments-gather c [] w = refl
  read_segments-gather c (id ∷ ids) w =
      rw (read_segment_lem s c id w) (ground (arith, read_segments-gather c ids w))

  pub gather_same :
      (c : CompressionPolicy) (ids : List SegmentId) (w w' : World)
      → ((j : SegmentId) → 0 < count j ids → plain s j w' ≡ plain s j w)
      → gather c ids w' ≡ gather c ids w
  unfolding gather
  gather_same c [] w w' same = refl
  gather_same c (id ∷ ids) w w' same =
      rw
        (
          same id (ground (arith, eq_iff id id)),
          gather_same c ids w w' (λ j h. same j (omega arith)),
        )
        refl

  -- The segments of a capsule are there when the counts are exact.
  pub capsule_alive :
      (id : CapsuleId) (c : Capsule) (w : World)
      → IsCounted [] w
      → lookup id w.registry.capsules ≡ some c
      → (j : SegmentId) → 0 < count j c.segments
      → (seg : Segment) × (lookup j w.nvram.segment_map ≡ some seg)
  capsule_alive id c w inv e j h = elim (Option-cases (lookup j w.nvram.segment_map)) [
    | inl gone ↦ absurd (ground (arith, inv.counted j, refs-remove j id c w.registry.capsules e))
    | inr there ↦ there
  ]

  pub read_capsule-gather :
      (id : CapsuleId) (c : Capsule) (w : World)
      → lookup id w.registry.capsules ≡ some c
      → read_capsule s id w ≡ (gather c.policy.compression c.segments w, w)
  unfolding read_capsule lookup_capsule
  read_capsule-gather id c w e = rw e (read_segments-gather c.policy.compression c.segments w)

  -- Reading a capsule gives the same before and after a change that keeps its segments readable.
  pub read_capsule-Keeps :
      (id : CapsuleId) (c : Capsule) (w w' : World)
      → IsCounted [] w
      → lookup id w.registry.capsules ≡ some c
      → lookup id w'.registry.capsules ≡ some c
      → Keeps s w w'
      → (read_capsule s id w').0 ≡ (read_capsule s id w).0
  unfolding read_capsule lookup_capsule
  read_capsule-Keeps id c w w' inv e e' keeps =
      rw (e, e')
        (rw
          (
            read_segments-gather c.policy.compression c.segments w,
            read_segments-gather c.policy.compression c.segments w',
          )
          (gather_same c.policy.compression c.segments w w'
            (λ j h. let (seg, there) = capsule_alive id c w inv e j h in keeps.same j seg there)))

  module _ (seals : OpensSeals s)
      (injective : (c d : Bytes) → s.hash_content c ≡ s.hash_content d → c ≡ d) (now : ℕ)
      (id : CapsuleId) (bytes : Bytes) (policy : Policy) (w : World) (inv : IsCounted [] w)
      (holds : HoldsContent s w) (fresh : lookup id w.registry.capsules ≡ none)
      (room : Room (length (chunks (length bytes) segment_size bytes)) (length bytes) w)
      (fine : Acceptable s policy (chunks (length bytes) segment_size bytes)) where
    -- What holds after the write, with the segments and the world that it leaves.
    abbrev pub RoundTrip : List SegmentId → World → Type 0
    RoundTrip ids w' =
        (write_capsule_with_policy s now id bytes policy w ≡ (ok id, w'))
        × (read_capsule s id w' ≡ (ok bytes, w'))
        × IsCounted [] w'
        × HoldsContent s w'
        × (w'.registry.capsules ≡ insert id (written now id bytes policy ids) w.registry.capsules)
        × ((other : CapsuleId) (c : Capsule)
            → lookup other w.registry.capsules ≡ some c
            → (read_capsule s other w').0 ≡ (read_capsule s other w).0)

    finish :
        (ids : List SegmentId) (stats : DedupStats) (w1 : World)
        → write_chunks s policy (chunks (length bytes) segment_size bytes) no_stats w
          ≡ (ok (ids, stats), w1)
        → Wrote s seals policy injective (chunks (length bytes) segment_size bytes) [] ids w w1
        → joined (chunks (length bytes) segment_size bytes) ≡ bytes
        → RoundTrip ids (with_capsule id (written now id bytes policy ids) w1)
    unfolding write_capsule_with_policy plain read_capsule lookup_capsule
    finish ids stats w1 wrote q whole =
        let fresh1 : lookup id w1.registry.capsules ≡ none = rw q.capsules fresh in
        let c = written now id bytes policy ids in
        let w2 = with_capsule id c w1 in
        let mine : lookup id w2.registry.capsules ≡ some c =
          ground (arith, lookup-insert id id c w1.registry.capsules, eq_iff id id) in
        let gathered : gather policy.compression ids w2 ≡ ok bytes =
          gather_same policy.compression ids w1 w2 (λ j h. refl)
          ∙ ap (λ r. r.0) (sym (read_segments-gather policy.compression ids w1) ∙ q.reads)
          ∙ ap ok whole in
        let keeps2 : Keeps s w w2 = record { same = q.keeps.same; still = q.keeps.still } in
        (
          rw
              (
                wrote,
                note_saved_lem id stats w1 fresh1,
                create-with_capsule now id bytes policy ids w1 fresh1,
              )
              refl,
          rw mine (read_segments-gather policy.compression ids w2 ∙ ap (λ r. (r, w2)) gathered),
          with_capsule-IsCounted id c w1 fresh1 q.counted,
          record { at = q.holds.at },
          ap (insert id c) q.capsules,
          λ other d e.
              read_capsule-Keeps other d w w2 inv e
                (ground (
                  arith,
                  lookup-insert id other c w1.registry.capsules,
                  eq_iff id other,
                  ap (lookup other) q.capsules,
                ))
                keeps2,
        )

    -- A write under a fresh id, into a world with exact counts whose content store names what it
    -- says, with room in the counters, of chunks that compression and encryption accept and that
    -- do not read as compressed themselves, succeeds. It adds one capsule, which reads back as the
    -- bytes written; the reference counts stay exact, every other capsule reads as before, and the
    -- content store still names what it says. Assumed of the parameters: sealed texts open again,
    -- and no two contents share a hash.
    pub write_capsule_roundtrip : (ids : List SegmentId) × (w' : World) × RoundTrip ids w'
    write_capsule_roundtrip =
        let cs = chunks (length bytes) segment_size bytes in
        let whole : joined cs ≡ bytes =
          joined-chunks (length bytes) segment_size bytes (omega arith) (omega arith) in
        let (ids, stats, w1, wrote, q) =
          write_chunks-Wrote s seals policy injective cs [] w no_stats inv holds (rw whole room)
            (chunks-AllShort (length bytes) segment_size bytes) fine in
        (
          ids,
          with_capsule id (written now id bytes policy ids) w1,
          finish ids stats w1 wrote q whole,
        )
