-- ===== src/Content/Write.antt =====
-- A list of chunks written in turn, and read again.
use space.Prelude.{
  ◌+◌, ◌≤◌, ◌≡◌, refl, ◌∙◌, ok, List, [], ◌∷◌, ◌++◌, count, count-append, nat_eq, arith, length,
  length-append,
}
use space.Common.{Bytes, SegmentId, Policy, segment_size}
use space.Gc.{World}
use space.Pipeline.Services.{Services, DedupStats, record_segment}
use space.Pipeline.Read.{expand, read_segments}
use space.Pipeline.Write.{Prepared, prepare, write_chunks}
use space.Refcounts.{IsCounted}
use space.Refcounts.Store.{Room}
use space.Content.{Keeps, Keeps-trans, HoldsContent, plain, read_segment_lem}
use space.Content.Prepare.{OpensSeals, prepare-Opens}
use space.Content.Place.{place-Placed}
use space.Content.Chunks.{joined, AllShort}

-- The same references in another order.
pub IsCounted-recount :
    {held other : List SegmentId} {w : World}
    → ((j : SegmentId) → count j held ≡ count j other)
    → IsCounted held w
    → IsCounted other w
IsCounted-recount same inv = record {
  layout = inv.layout;
  counted = λ j. omega (arith, inv.counted j, same j);
  alive = inv.alive;
  fresh = inv.fresh;
  named = inv.named;
  content = inv.content;
  capsules_distinct = inv.capsules_distinct;
  content_distinct = inv.content_distinct;
}

module _ (s : Services) where
  -- Compression and encryption accept each chunk, and no chunk reads as a compressed stream by
  -- itself.
  abbrev pub Acceptable : Policy → List Bytes → Type 0
  Acceptable policy [] = Unit
  Acceptable policy (c ∷ cs) =
      ((p : Prepared) × (prepare s policy c ≡ ok p))
      × (expand s policy.compression c ≡ c)
      × Acceptable policy cs

  module _ (seals : OpensSeals s) (policy : Policy)
      (injective : (c d : Bytes) → s.hash_content c ≡ s.hash_content d → c ≡ d) where
    -- What writing `cs` gives: segments `ids`, one reference each, that read back as `cs`.
    pub record Wrote (cs : List Bytes) (held ids : List SegmentId) (w w' : World) : Type 0 where
      pub counted : IsCounted (ids ++ held) w'
      pub holds : HoldsContent s w'
      pub keeps : Keeps s w w'
      pub reads : read_segments s policy.compression ids w' ≡ (ok (joined cs), w')
      pub capsules : w'.registry.capsules ≡ w.registry.capsules

    pub write_chunks-Wrote :
        (cs : List Bytes) (held : List SegmentId) (w : World) (stats : DedupStats)
        → IsCounted held w
        → HoldsContent s w
        → Room (length cs) (length (joined cs)) w
        → AllShort segment_size cs
        → Acceptable policy cs
        → (ids : List SegmentId) × (stats' : DedupStats) × (w' : World) × (write_chunks s policy cs
              stats w
            ≡ (ok (ids, stats'), w'))
          × Wrote cs held ids w w'
    unfolding write_chunks read_segments joined
    write_chunks-Wrote [] held w stats inv holds room short fine = (
      [],
      stats,
      w,
      refl,
      record {
        counted = inv;
        holds = holds;
        keeps = record { same = λ j seg e. refl; still = λ j seg e. (seg, e) };
        reads = refl;
        capsules = refl;
      },
    )
    write_chunks-Wrote (c ∷ cs) held w stats inv holds room short fine =
        let (p, prepared) = fine.0 in
        let (b, opens, whole, le) =
          prepare-Opens s seals policy c p (omega (arith, short.0)) fine.1 prepared in
        let fits : length p.final_data ≤ length c = omega (arith, opens.fits) in
        let total : length (c ++ joined cs) ≡ length c + length (joined cs) =
          length-append c (joined cs) in
        let room1 : Room 1 (length p.final_data) w = record {
          ids = omega (arith, room.ids);
          counts = λ j. omega (arith, room.counts j);
          bytes = omega (arith, room.bytes);
        } in
        let (id, len, was_deduped, w1, placed, q) =
          place-Placed s seals p b held w opens inv holds injective room1 (omega arith)
            policy.dedupe in
        let room2 : Room (length cs) (length (joined cs)) w1 =
          q.room (length cs) (length (joined cs))
            (record { ids = room.ids; counts = room.counts; bytes = omega (arith, room.bytes) }) in
        let (ids, stats', w2, wrote, r) =
          write_chunks-Wrote cs (id ∷ held) w1 (record_segment len was_deduped stats) q.counted
            q.holds room2 short.1 fine.2 in
        let (seg, there) = q.there in
        (
          id ∷ ids,
          stats',
          w2,
          rw (prepared, placed, wrote) refl,
          record {
            counted =
                IsCounted-recount
                  (λ j. omega (arith, count-append j ids (id ∷ held), count-append j ids held))
                  r.counted;
            holds = r.holds;
            keeps = Keeps-trans s q.keeps r.keeps;
            reads =
                let mine : plain s id w2 ≡ ok b = r.keeps.same id seg there ∙ q.reads in
                rw (read_segment_lem s policy.compression id w2, mine, r.reads, whole) refl;
            capsules = r.capsules ∙ q.capsules;
          },
        )
