-- ===== src/Layout/Placing.antt =====
-- What holds while the layout engine places slices (crates/layout-engine/src/offload/cpu.rs).
use space.Prelude.{
  ℕ, ◌+◌, ◌<◌, ◌≤◌, ◌≡◌, refl, sym, ap, ◌∙◌, Bool-cases, inl, inr, leb, List, [], ◌∷◌, ◌++◌,
  append_assoc, append-nil, length, length-append, take, drop, take-all, drop-all, arith,
}
use space.Common.{Bytes, CapsuleId, ContentHash}
use space.Pipeline.Write.{chunks}
use space.Content.Chunks.{joined, joined-chunks, AllShort, chunks-AllShort}
use space.Layout.{
  SegmentRef, Zone, Planner, close_zone, push_segment, push_chunks, push_slice, push_slices,
}

-- All segments of some zones, in order.
unfoldable pub refs_of : List Zone → List SegmentRef
refs_of [] = []
refs_of (z ∷ zs) = z.segments ++ refs_of zs

refs_of-append : (xs ys : List Zone) → refs_of (xs ++ ys) ≡ refs_of xs ++ refs_of ys
unfolding refs_of
refs_of-append [] ys = refl
refs_of-append (z ∷ zs) ys =
    ap (λ l. z.segments ++ l) (refs_of-append zs ys)
    ∙ sym (append_assoc z.segments (refs_of zs) (refs_of ys))

-- The zones are numbered from `n` on, and each takes its number as the seed of its IVs.
abbrev pub Numbered : ℕ → List Zone → Type 0
Numbered n [] = Unit
Numbered n (z ∷ zs) = (z.id ≡ n) × (z.iv_seed ≡ n) × Numbered (n + 1) zs

module _ (hash_chunk : Bytes → ContentHash) (size : ℕ) (bytes : Bytes) where
  -- The bytes that a segment names.
  abbrev pub named : SegmentRef → Bytes
  named r = take r.len (drop r.offset bytes)

  -- The segments lie one behind the other from `start` to `stop`, each of at most `size` bytes and
  -- with the hash of its own bytes.
  abbrev pub Covers : ℕ → List SegmentRef → ℕ → Type 0
  Covers start [] stop = start ≡ stop
  Covers start (r ∷ rs) stop =
      (r.offset ≡ start)
      × (r.len ≤ size)
      × (r.offset + r.len ≤ length bytes)
      × (hash_chunk (named r) ≡ r.compressed_hash)
      × Covers (start + r.len) rs stop

  Covers-append :
      (xs ys : List SegmentRef) (a b c : ℕ) → Covers a xs b → Covers b ys c → Covers a (xs ++ ys) c
  Covers-append [] ys a b c first rest = rw first rest
  Covers-append (x ∷ xs) ys a b c first rest =
      (first.0, first.1, first.2, first.3, Covers-append xs ys (a + x.len) b c first.4 rest)

  -- What holds of the planner when everything before `at` has been placed.
  pub record Placing (p : Planner) (at : ℕ) : Type 0 where
    pub covered : Covers 0 (refs_of p.zones ++ p.current_zone.segments) at
    pub numbered : Numbered 0 p.zones
    pub counted : length p.zones ≡ p.zone_id
    pub current : p.current_zone.id ≡ p.zone_id
    pub seeded : p.current_zone.iv_seed ≡ p.zone_id

  Placing-at : (p : Planner) (a b : ℕ) → a ≡ b → Placing p a → Placing p b
  Placing-at p a b e inv = rw (← e) inv

  Numbered-append :
      (zs : List Zone) (z : Zone) (n : ℕ)
      → Numbered n zs
      → z.id ≡ n + length zs
      → z.iv_seed ≡ n + length zs
      → Numbered n (zs ++ z ∷ [])
  Numbered-append [] z n k id seed = (omega (arith, id), omega (arith, seed), tt)
  Numbered-append (y ∷ ys) z n k id seed =
      (k.0, k.1, Numbered-append ys z (n + 1) k.2 (omega (arith, id)) (omega (arith, seed)))

  pub close_zone-Placing : (p : Planner) (at : ℕ) → Placing p at → Placing (close_zone p) at
  unfolding close_zone refs_of
  close_zone-Placing p at inv =
      let z = p.current_zone in
      let same : refs_of (p.zones ++ z ∷ []) ++ [] ≡ refs_of p.zones ++ z.segments =
        append-nil (refs_of (p.zones ++ z ∷ []))
        ∙ refs_of-append p.zones (z ∷ [])
        ∙ ap (λ l. refs_of p.zones ++ l) (append-nil z.segments) in
      record {
        covered = rw same inv.covered;
        numbered =
            Numbered-append p.zones z 0 inv.numbered (omega (arith, inv.current, inv.counted))
              (omega (arith, inv.seeded, inv.counted));
        counted = omega (arith, length-append p.zones (z ∷ []), inv.counted);
        current = refl;
        seeded = refl;
      }

  module _ (capsule : CapsuleId) where
    push_segment-Placing :
        (start : ℕ) (chunk pre post : Bytes) (p : Planner)
        → bytes ≡ pre ++ (chunk ++ post)
        → length pre ≡ p.cursor + start
        → length chunk ≤ size
        → Placing p (p.cursor + start)
        → let q = push_segment hash_chunk capsule size start chunk p in
          Placing q (p.cursor + start + length chunk) × (q.cursor ≡ p.cursor)
    unfolding push_segment close_zone
    push_segment-Placing start chunk pre post p whole at short inv =
        let r : SegmentRef = record {
          capsule_id = capsule;
          offset = p.cursor + start;
          len = length chunk;
          compressed_hash = hash_chunk chunk;
        } in
        let pushed : Planner = record p {
          current_zone = record p.current_zone { segments = p.current_zone.segments ++ r ∷ [] };
          zone_usage = p.zone_usage + length chunk;
        } in
        let mine : named r ≡ chunk =
          ap (take (length chunk)) (rw (whole, ← at) (drop-all pre (chunk ++ post)))
          ∙ take-all chunk post in
        let inside : p.cursor + start + length chunk ≤ length bytes = omega (
          arith,
          ap length whole,
          at,
          length-append pre (chunk ++ post),
          length-append chunk post,
        ) in
        let next : Placing pushed (p.cursor + start + length chunk) = record {
          covered = rw (← append_assoc (refs_of p.zones) p.current_zone.segments (r ∷ [])) (
              Covers-append (refs_of p.zones ++ p.current_zone.segments) (r ∷ []) 0
                (p.cursor + start) (p.cursor + start + length chunk) inv.covered
                (refl, short, inside, ap hash_chunk mine, refl));
          numbered = inv.numbered;
          counted = inv.counted;
          current = inv.current;
          seeded = inv.seeded;
        } in
        elim (Bool-cases (leb size pushed.zone_usage)) [
          | inl full ↦ rw full (close_zone-Placing pushed _ next, refl)
          | inr more ↦ rw more (next, refl)
        ]

    push_chunks-Placing :
        (start : ℕ) (cs : List Bytes) (pre post : Bytes) (p : Planner)
        → bytes ≡ pre ++ (joined cs ++ post)
        → length pre ≡ p.cursor + start
        → AllShort size cs
        → Placing p (p.cursor + start)
        → let q = push_chunks hash_chunk capsule size start cs p in
          Placing q (p.cursor + start + length (joined cs)) × (q.cursor ≡ p.cursor)
    unfolding push_chunks joined
    push_chunks-Placing start [] pre post p whole at short inv =
        (Placing-at p (p.cursor + start) (p.cursor + start + 0) (omega arith) inv, refl)
    push_chunks-Placing start (c ∷ cs) pre post p whole at short inv =
        let q = push_segment hash_chunk capsule size start c p in
        let split : bytes ≡ pre ++ (c ++ (joined cs ++ post)) =
          whole ∙ ap (λ l. pre ++ l) (append_assoc c (joined cs) post) in
        let (next, same) =
          push_segment-Placing start c pre (joined cs ++ post) p split at short.0 inv in
        let (last, same') =
          push_chunks-Placing (start + length c) cs (pre ++ c) post q
            (split ∙ sym (append_assoc pre c (joined cs ++ post)))
            (omega (arith, length-append pre c, at, same)) short.1
            (Placing-at q (p.cursor + start + length c) (q.cursor + (start + length c))
              (omega (arith, same)) next) in
        (Placing-at _ _ _ (omega (arith, same, length-append c (joined cs))) last, same' ∙ same)

    pub push_slices-Placing :
        (slices : List Bytes) (pre : Bytes) (p : Planner)
        → 0 < size
        → bytes ≡ pre ++ joined slices
        → length pre ≡ p.cursor
        → Placing p p.cursor
        → Placing (push_slices hash_chunk capsule size slices p) (length bytes)
    unfolding push_slices push_slice joined
    push_slices-Placing [] pre p pos whole at inv =
        Placing-at p p.cursor (length bytes) (omega (arith, at, ap length (whole ∙ append-nil pre)))
          inv
    push_slices-Placing (s ∷ rest) pre p pos whole at inv =
        let cs = chunks (length s) size s in
        let same_bytes : joined cs ≡ s = joined-chunks (length s) size s pos (omega arith) in
        let q = push_chunks hash_chunk capsule size 0 cs p in
        let (next, same) =
          push_chunks-Placing 0 cs pre (joined rest) p
            (whole ∙ ap (λ l. pre ++ (l ++ joined rest)) (sym same_bytes)) (omega (arith, at))
            (chunks-AllShort (length s) size s)
            (Placing-at p p.cursor (p.cursor + 0) (omega arith) inv) in
        let moved : Planner = record q { cursor = q.cursor + length s } in
        let ready : Placing q (q.cursor + length s) =
          Placing-at q _ _ (omega (arith, same, ap length same_bytes)) next in
        push_slices-Placing rest (pre ++ s) moved pos
          (whole ∙ sym (append_assoc pre s (joined rest)))
          (omega (arith, length-append pre s, at, same))
          (record {
            covered = ready.covered;
            numbered = ready.numbered;
            counted = ready.counted;
            current = ready.current;
            seeded = ready.seeded;
          })
