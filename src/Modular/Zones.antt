-- ===== src/Modular/Zones.antt =====
-- What writing the zones of a plan stores (`Pipeline::write_capsule` of crates/pipeline/src/lib.rs).
use space.Prelude.{
  ℕ, ◌+◌, ◌<◌, ◌≤◌, ◌≡◌, refl, ap, ◌∙◌, false, ok, List, [], ◌∷◌, ◌++◌, nat_eq, arith, length,
  length-append, take, drop, ltb,
}
use space.Common.{Bytes, SegmentId, CapsuleId, Policy, u64_mod}
use space.Pipeline.Services.{DedupStats, record_segment}
use space.Layout.{SegmentRef, Zone}
use space.Layout.Placing.{refs_of}
use space.Storage.{StorageBackend}
use space.Storage.Laws.{StorageLaws}
use space.Modular.Write.{Parts, PipelineState, slice_of, write_refs, write_zones}
use space.Modular.Reading.{Keeps, AllHold, AllHold-kept, AllHold-append}
use space.Modular.Storing.{IsTransparent, IsCoherent, Writable, write_chunk-Placed}

abbrev pub pieces : Bytes → List SegmentRef → List Bytes
pieces bytes [] = []
pieces bytes (r ∷ rs) = take r.len (drop r.offset bytes) ∷ pieces bytes rs

pieces-append :
    (bytes : Bytes) (xs ys : List SegmentRef)
    → pieces bytes (xs ++ ys) ≡ pieces bytes xs ++ pieces bytes ys
pieces-append bytes [] ys = refl
pieces-append bytes (x ∷ xs) ys =
    ap (λ l. take x.len (drop x.offset bytes) ∷ l) (pieces-append bytes xs ys)

module _ {S T : Type 0} (b : StorageBackend S T) (laws : StorageLaws b) (parts : Parts) where
  module _ (meaning : Bytes → Bytes) (policy : Policy) (bytes : Bytes) where
    -- Every segment of the plan lies in the input, and its bytes can be written.
    abbrev pub AllWritable : List SegmentRef → Type 0
    AllWritable [] = Unit
    AllWritable (r ∷ rs) =
        (r.offset + r.len ≤ length bytes)
        × Writable b laws parts meaning policy (take r.len (drop r.offset bytes))
        × AllWritable rs

    AllWritable-parts :
        (xs ys : List SegmentRef) → AllWritable (xs ++ ys) → AllWritable xs × AllWritable ys
    AllWritable-parts [] ys f = (tt, f)
    AllWritable-parts (x ∷ xs) ys f =
        let (front, back) = AllWritable-parts xs ys f.2 in ((f.0, f.1, front), back)

  -- What writing `refs` makes of `p`.
  pub record Wrote (meaning : Bytes → Bytes) (cs : List Bytes) (n : ℕ) (p q : PipelineState S)
      (ids : List SegmentId) : Type 0 where
    pub coherent : IsCoherent b laws parts meaning q
    pub holds : AllHold b laws parts q.storage ids cs
    pub keeps : Keeps b laws parts p.storage q.storage
    pub capsules : q.catalog.capsules ≡ p.catalog.capsules
    pub next : q.catalog.next_segment ≤ p.catalog.next_segment + n

  module _ (trans : IsTransparent b laws parts) (meaning : Bytes → Bytes)
      (injective : (x y : Bytes) → parts.hash_bytes x ≡ parts.hash_bytes y → x ≡ y)
      (capsule : CapsuleId) (policy : Policy) (bytes : Bytes) where
    write_refs-Wrote :
        (rs : List SegmentRef) (stats : DedupStats) (p : PipelineState S)
        → IsCoherent b laws parts meaning p
        → AllWritable meaning policy bytes rs
        → p.catalog.next_segment + length rs < u64_mod
        → (ids : List SegmentId) × (stats' : DedupStats) × (q : PipelineState S) × (write_refs b
              parts capsule policy bytes rs stats p
            ≡ (ok (ids, stats'), q))
          × Wrote meaning (pieces bytes rs) (length rs) p q ids
    unfolding write_refs
    write_refs-Wrote [] stats p inv fine room = (
      [],
      stats,
      p,
      refl,
      record {
        coherent = inv;
        holds = tt;
        keeps = λ j d h. h;
        capsules = refl;
        next = omega arith;
      },
    )
    write_refs-Wrote (r ∷ rs) stats p inv fine room =
        let inside : slice_of b parts bytes r ≡ ok (take r.len (drop r.offset bytes)) =
          let e : ltb (length bytes) (r.offset + r.len) ≡ false = ground (arith, fine.0) in
          rw e refl in
        let (q, noted, ran, placed) =
          write_chunk-Placed b laws parts trans meaning capsule injective policy
            (take r.len (drop r.offset bytes)) p fine.1 inv (omega (arith, room)) in
        let (ids, stats', q', ran', w) =
          write_refs-Wrote rs (record_segment noted.len noted.was_deduped stats) q placed.coherent
            fine.2 (omega (arith, room, placed.next)) in
        (
          noted.id ∷ ids,
          stats',
          q',
          rw (inside, ran, ran') refl,
          record {
            coherent = w.coherent;
            holds = (w.keeps noted.id (take r.len (drop r.offset bytes)) placed.holds, w.holds);
            keeps = λ j d h. w.keeps j d (placed.keeps j d h);
            capsules = w.capsules ∙ placed.capsules;
            next = omega (arith, w.next, placed.next);
          },
        )

    pub write_zones-Wrote :
        (zs : List Zone) (stats : DedupStats) (p : PipelineState S)
        → IsCoherent b laws parts meaning p
        → AllWritable meaning policy bytes (refs_of zs)
        → p.catalog.next_segment + length (refs_of zs) < u64_mod
        → (ids : List SegmentId) × (stats' : DedupStats) × (q : PipelineState S) × (write_zones b
              parts capsule policy bytes zs stats p
            ≡ (ok (ids, stats'), q))
          × Wrote meaning (pieces bytes (refs_of zs)) (length (refs_of zs)) p q ids
    unfolding write_zones refs_of
    write_zones-Wrote [] stats p inv fine room = (
      [],
      stats,
      p,
      refl,
      record {
        coherent = inv;
        holds = tt;
        keeps = λ j d h. h;
        capsules = refl;
        next = omega arith;
      },
    )
    write_zones-Wrote (z ∷ zs) stats p inv fine room =
        let total : length (z.segments ++ refs_of zs) ≡ length z.segments + length (refs_of zs) =
          length-append z.segments (refs_of zs) in
        let (front, back) = AllWritable-parts meaning policy bytes z.segments (refs_of zs) fine in
        let (ids, stats1, q, ran, w) =
          write_refs-Wrote z.segments stats p inv front (omega (arith, room, total)) in
        let (js, stats2, q', ran', w') =
          write_zones-Wrote zs stats1 q w.coherent back (omega (arith, room, total, w.next)) in
        (
          ids ++ js,
          stats2,
          q',
          rw (ran, ran') refl,
          record {
            coherent = w'.coherent;
            holds = rw (pieces-append bytes z.segments (refs_of zs)) (
                AllHold-append b laws parts q'.storage ids js (pieces bytes z.segments)
                  (pieces bytes (refs_of zs))
                  (AllHold-kept b laws parts q.storage q'.storage ids (pieces bytes z.segments)
                    w'.keeps w.holds)
                  w'.holds);
            keeps = λ j d h. w'.keeps j d (w.keeps j d h);
            capsules = w'.capsules ∙ w.capsules;
            next = omega (arith, w'.next, w.next, total);
          },
        )
