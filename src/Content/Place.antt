-- ===== src/Content/Place.antt =====
-- Placing one prepared chunk: reference counts, content and what was readable before.
use space.Prelude.{
  ℕ, suc, ◌+◌, ◌<◌, ◌≡◌, refl, sym, ap, ◌∙◌, Bool, true, false, Option, none, some, ok, List, ◌∷◌,
  lookup, ◌==◌, nat_eq, bytes_eq, arith, eq_iff, Bool-cases, Option-cases, inl, inr, length,
  length-append, lookup-insert,
}
use space.Common.{Bytes, SegmentId, ContentHash, Segment, u32_mod}
use space.Nvram.{new_segment}
use space.Gc.{World}
use space.Pipeline.Services.{Services}
use space.Pipeline.Write.{Prepared, place}
use space.Refcounts.{IsCounted}
use space.Refcounts.Store.{
  Room, new_id, described, stored, stored-lookup, stored-IsCounted, reused, reused-lookup,
  reused-IsCounted, registered, registered-IsCounted, describe_lem, place-plain, place-new,
  place-reused,
}
use space.Content.{Keeps, HoldsContent, plain, stored-Keeps, plain-stored, reused-Keeps}
use space.Content.Prepare.{Opens, OpensSeals}

module _ (s : Services) (seals : OpensSeals s) where
  -- `w'` is `w` with one more reference, to a segment `id` that decrypts to `b`.
  pub record Placed (p : Prepared) (b : Bytes) (held : List SegmentId) (w : World) (id : SegmentId)
      (w' : World) : Type 0 where
    pub counted : IsCounted (id ∷ held) w'
    pub holds : HoldsContent s w'
    pub keeps : Keeps s w w'
    pub reads : plain s id w' ≡ ok b
    pub there : (seg : Segment) × (lookup id w'.nvram.segment_map ≡ some seg)
    pub capsules : w'.registry.capsules ≡ w.registry.capsules
    pub room : (n total : ℕ) → Room (suc n) (length p.final_data + total) w → Room n total w'

  module _ (p : Prepared) (b : Bytes) (held : List SegmentId) (w : World)
      (opens : Opens s seals p b) (inv : IsCounted held w) (holds : HoldsContent s w) where
    module _ (hash : Option ContentHash) where
      stored_holds :
          (h : ContentHash) (id : SegmentId)
          → lookup h w.registry.content_store ≡ some id
          → (c : Bytes) × (plain s id (stored hash p w) ≡ ok c) × (s.hash_content c ≡ h)
      stored_holds h id e =
          let (c, reads, hashed) = holds.at h id e in
          let (seg, there, named_by) = inv.content h id e in
          (c, (stored-Keeps s hash p w held inv).same id seg there ∙ reads, hashed)

      stored_room :
          (n total : ℕ)
          → Room (suc n) (length p.final_data + total) w
          → Room n total (stored hash p w)
      stored_room n total r = record {
        ids = omega (arith, r.ids);
        counts = λ j.
            let (refs1, off, len', id', hash') =
              describe_lem p hash
                (new_segment (new_id hash p w) w.nvram.next_offset (length p.final_data)) in
            ground (arith, stored-lookup hash p w held inv j, r.counts j, refs1);
        bytes = omega (arith, r.bytes, length-append w.nvram.file p.final_data);
      }

      stored_there :
          lookup (new_id hash p w) (stored hash p w).nvram.segment_map ≡ some (described hash p w)
      stored_there = ground (
        arith,
        stored-lookup hash p w held inv (new_id hash p w),
        eq_iff (new_id hash p w) (new_id hash p w),
      )

    stored-Placed : Placed p b held w (new_id none p w) (stored none p w)
    stored-Placed = record {
      counted = stored-IsCounted none p w held inv;
      holds = record { at = stored_holds none };
      keeps = stored-Keeps s none p w held inv;
      reads = plain-stored s none p w held inv b (opens.opened none);
      there = (described none p w, stored_there none);
      capsules = refl;
      room = stored_room none;
    }

    registered-Placed :
        Placed p b held w
          (new_id (some p.hash) p w)
          (registered p.hash (new_id (some p.hash) p w) (stored (some p.hash) p w))
    unfolding plain
    registered-Placed =
        let hash = some p.hash in
        let id = new_id hash p w in
        let kept = stored-Keeps s hash p w held inv in
        let reads = plain-stored s hash p w held inv b (opens.opened hash) in
        let (refs1, off, len', id', hash') =
          describe_lem p hash (new_segment id w.nvram.next_offset (length p.final_data)) in
        record {
          counted =
              registered-IsCounted p.hash id (stored hash p w) (id ∷ held)
                (stored-IsCounted hash p w held inv) (described hash p w) (stored_there hash) hash';
          holds = record {
            at = λ h j e. elim (Bool-cases (p.hash == h)) [
              | inl same ↦
                  let j_eq : id ≡ j =
                    ground (arith, lookup-insert p.hash h id w.registry.content_store) in
                  (b, rw (← j_eq) reads, opens.hashed ∙ (eq_iff p.hash h).0 same)
              | inr other ↦
                  stored_holds hash h j
                    (ground (arith, lookup-insert p.hash h id w.registry.content_store))
            ];
          };
          keeps = record { same = kept.same; still = kept.still };
          reads = reads;
          there = (described hash p w, stored_there hash);
          capsules = refl;
          room = λ n total r.
              let after = stored_room hash n total r in
              record { ids = after.ids; counts = after.counts; bytes = after.bytes };
        }

    module _ (injective : (c d : Bytes) → s.hash_content c ≡ s.hash_content d → c ≡ d)
        (id : SegmentId) (e : lookup p.hash w.registry.content_store ≡ some id) (seg : Segment)
        (there : lookup id w.nvram.segment_map ≡ some seg) where
      reused-Placed : Placed p b held w id (reused id w seg)
      reused-Placed =
          let kept = reused-Keeps s id w held inv seg there in
          record {
            counted = reused-IsCounted id w held inv seg there;
            holds = record {
              at = λ h j f.
                  let (c, reads, hashed) = holds.at h j f in
                  let (t, t_there, named_by) = inv.content h j f in
                  (c, kept.same j t t_there ∙ reads, hashed);
            };
            keeps = kept;
            reads =
                let (c, reads, hashed) = holds.at p.hash id e in
                kept.same id seg there ∙ reads ∙ ap ok (injective c b (hashed ∙ sym opens.hashed));
            there = kept.still id seg there;
            capsules = refl;
            room = λ n total r. record {
              ids = omega (arith, r.ids);
              counts = λ j. ground (
                arith,
                reused-lookup id w held inv seg there j,
                r.counts j,
                r.counts id,
                eq_iff id j,
              );
              bytes = omega (arith, r.bytes);
            };
          }

    -- Placing a chunk succeeds, whether it is stored or reused.
    pub place-Placed :
        (injective : (c d : Bytes) → s.hash_content c ≡ s.hash_content d → c ≡ d)
        → Room 1 (length p.final_data) w
        → length p.final_data < u32_mod
        → (dedupe : Bool)
        → (id : SegmentId) × (len : ℕ) × (was_deduped : Bool) × (w' : World) × (place dedupe p w
            ≡ (ok (id, len, was_deduped), w'))
          × Placed p b held w id w'
    place-Placed injective room small false = (
      new_id none p w,
      length p.final_data,
      false,
      stored none p w,
      place-plain p w held inv room small,
      stored-Placed,
    )
    place-Placed injective room small true =
        elim (Option-cases (lookup p.hash w.registry.content_store)) [
          | inl e ↦ (
            new_id (some p.hash) p w,
            length p.final_data,
            false,
            registered p.hash (new_id (some p.hash) p w) (stored (some p.hash) p w),
            place-new p w held inv room small e,
            registered-Placed,
          )
          | inr (id, e) ↦
              let (seg, there, named_by, placed) = place-reused p w held inv room small id e in
              (id, seg.len, true, reused id w seg, placed, reused-Placed injective id e seg there)
        ]
