-- ===== src/Refcounts/Trims.antt =====
-- Changes that only count references anew and drop segments.
use space.Prelude.{
  ℕ, ◌≡◌, refl, ◌∙◌, Bool, some, Map, lookup, insert, remove, Distinct, nat_eq, bytes_eq, arith,
  eq_iff, lookup-insert, lookup-remove, Bool-cases, nat_beq, inl, inr,
}
use space.Common.{SegmentId, ContentHash, Segment}
use space.Gc.{World}

abbrev pub recounted : ℕ → Bool → Segment → Segment
recounted n shared seg = record seg { ref_count = n; deduplicated = shared }

-- The segments of `m'` are segments of `m` but for the number of references.
pub record TrimsMap (m m' : Map SegmentId Segment) : Type 0 where
  pub of :
      (j : SegmentId) (seg' : Segment)
      → lookup j m' ≡ some seg'
      → (seg : Segment) × (lookup j m ≡ some seg)
        × (seg' ≡ recounted seg'.ref_count seg'.deduplicated seg)

pub record Trims (w w' : World) : Type 0 where
  pub file : w'.nvram.file ≡ w.nvram.file
  pub segments : TrimsMap w.nvram.segment_map w'.nvram.segment_map
  pub content :
      (h : ContentHash) (s : SegmentId)
      → lookup h w'.registry.content_store ≡ some s
      → lookup h w.registry.content_store ≡ some s

pub Trims-refl : (w : World) → Trims w w
Trims-refl w = record {
  file = refl;
  segments = record { of = λ j seg e. (seg, e, refl) };
  content = λ h s e. e;
}

pub Trims-trans : {w w1 w2 : World} → Trims w w1 → Trims w1 w2 → Trims w w2
Trims-trans t u = record {
  file = u.file ∙ t.file;
  segments = record {
    of = λ j seg2 e2.
        let (seg1, e1, same1) = u.segments.of j seg2 e2 in
        let (seg, e, same) = t.segments.of j seg1 e1 in
        (seg, e, same1 ∙ λ i. recounted seg2.ref_count seg2.deduplicated (same i));
  };
  content = λ h s e. t.content h s (u.content h s e);
}

-- Counting one segment anew, and dropping one.
pub TrimsMap-insert :
    (s : SegmentId) (seg : Segment) (n : ℕ) (shared : Bool) (m : Map SegmentId Segment)
    → lookup s m ≡ some seg
    → TrimsMap m (insert s (recounted n shared seg) m)
TrimsMap-insert s seg n shared m e = record {
  of = λ j seg' e'. elim (Bool-cases (nat_beq s j)) [
    | inl same ↦ (
      seg,
      ground (arith, eq_iff s j),
      ground (arith, lookup-insert s j (recounted n shared seg) m),
    )
    | inr other ↦ (seg', ground (arith, lookup-insert s j (recounted n shared seg) m), refl)
  ];
}

pub TrimsMap-remove :
    (s : SegmentId) (m : Map SegmentId Segment) → Distinct m → TrimsMap m (remove s m)
TrimsMap-remove s m d = record {
  of = λ j seg' e'. (seg', ground (arith, lookup-remove s j m d), refl);
}

pub TrimsMap-trans :
    {m m1 m2 : Map SegmentId Segment} → TrimsMap m m1 → TrimsMap m1 m2 → TrimsMap m m2
TrimsMap-trans t u = record {
  of = λ j seg2 e2.
      let (seg1, e1, same1) = u.of j seg2 e2 in
      let (seg, e, same) = t.of j seg1 e1 in
      (seg, e, same1 ∙ λ i. recounted seg2.ref_count seg2.deduplicated (same i));
}
