-- ===== src/Refcounts/Frame.antt =====
-- What a sweep and a reconciliation leave as it was.
use space.Prelude.{
  ℕ, ◌<◌, ◌≡◌, ◌⊎◌, refl, sym, ap, ◌∙◌, true, inl, inr, Bool-cases, none, some, lookup, nat_eq,
  bytes_eq, nat_beq, ltb, arith, if◌then◌else◌,
}
use space.Common.{SegmentId, ContentHash, Segment}
use space.Gc.{World}
use space.Refcounts.{refs}
use space.Refcounts.Trims.{recounted}

-- Capsules, the next segment id, the bytes of the log and its next offset are as before; what has
-- changed of the registry and of the segment map has been saved.
pub record SameElse (w w' : World) : Type 0 where
  pub capsules : w'.registry.capsules ≡ w.registry.capsules
  pub counter : w'.registry.next_segment_id ≡ w.registry.next_segment_id
  pub file : w'.nvram.file ≡ w.nvram.file
  pub next_offset : w'.nvram.next_offset ≡ w.nvram.next_offset
  pub registry_saved : (w'.registry ≡ w.registry) ⊎ (w'.registry.saved ≡ w'.registry.state)
  pub map_saved : (w'.nvram ≡ w.nvram) ⊎ (w'.nvram.saved ≡ w'.nvram.segment_map)

pub SameElse-refl : (w : World) → SameElse w w
SameElse-refl w = record {
  capsules = refl;
  counter = refl;
  file = refl;
  next_offset = refl;
  registry_saved = inl refl;
  map_saved = inl refl;
}

saved_later :
    {A B : Type 0} (saved state : A → B) {a b c : A}
    → (b ≡ a) ⊎ (saved b ≡ state b)
    → (c ≡ b) ⊎ (saved c ≡ state c)
    → (c ≡ a) ⊎ (saved c ≡ state c)
saved_later saved state first (inr done) = inr done
saved_later saved state (inl e) (inl f) = inl (f ∙ e)
saved_later saved state (inr done) (inl f) = inr (ap saved f ∙ done ∙ ap state (sym f))

pub SameElse-trans : {w w1 w2 : World} → SameElse w w1 → SameElse w1 w2 → SameElse w w2
SameElse-trans t u = record {
  capsules = u.capsules ∙ t.capsules;
  counter = u.counter ∙ t.counter;
  file = u.file ∙ t.file;
  next_offset = u.next_offset ∙ t.next_offset;
  registry_saved = saved_later (λ r. r.saved) (λ r. r.state) t.registry_saved u.registry_saved;
  map_saved = saved_later (λ l. l.saved) (λ l. l.segment_map) t.map_saved u.map_saved;
}

-- Segments with references stay as they are, with their entries in the content store, and nothing
-- appears.
pub record Sweeps (w w' : World) : Type 0 where
  pub else_same : SameElse w w'
  pub stays :
      (j : SegmentId) (seg : Segment)
      → lookup j w.nvram.segment_map ≡ some seg
      → 0 < seg.ref_count
      → lookup j w'.nvram.segment_map ≡ some seg
  pub was :
      (j : SegmentId) (seg : Segment)
      → lookup j w'.nvram.segment_map ≡ some seg
      → lookup j w.nvram.segment_map ≡ some seg
  pub content_stays :
      (h : ContentHash) (j : SegmentId) (seg : Segment)
      → lookup h w.registry.content_store ≡ some j
      → lookup j w.nvram.segment_map ≡ some seg
      → 0 < seg.ref_count
      → lookup h w'.registry.content_store ≡ some j
  pub content_was :
      (h : ContentHash) (j : SegmentId)
      → lookup h w'.registry.content_store ≡ some j
      → lookup h w.registry.content_store ≡ some j

pub Sweeps-refl : (w : World) → Sweeps w w
Sweeps-refl w = record {
  else_same = SameElse-refl w;
  stays = λ j seg e pos. e;
  was = λ j seg e. e;
  content_stays = λ h j seg e there pos. e;
  content_was = λ h j e. e;
}

pub Sweeps-trans : {w w1 w2 : World} → Sweeps w w1 → Sweeps w1 w2 → Sweeps w w2
Sweeps-trans t u = record {
  else_same = SameElse-trans t.else_same u.else_same;
  stays = λ j seg e pos. u.stays j seg (t.stays j seg e pos) pos;
  was = λ j seg e. t.was j seg (u.was j seg e);
  content_stays = λ h j seg e there pos.
      u.content_stays h j seg (t.content_stays h j seg e there pos) (t.stays j seg there pos) pos;
  content_was = λ h j e. t.content_was h j (u.content_was h j e);
}

-- A segment with its count set right; one whose count is right is left alone, flag included.
abbrev pub corrected : ℕ → Segment → Segment
corrected n seg = if nat_beq seg.ref_count n then seg else recounted n (ltb 1 n) seg

-- Segments that some capsule lists stay, with their counts set right, and so do their entries in
-- the content store; no other segment or entry is left.
pub record Reconciles (w w' : World) : Type 0 where
  pub else_same : SameElse w w'
  pub stays :
      (j : SegmentId) (seg : Segment)
      → lookup j w.nvram.segment_map ≡ some seg
      → 0 < refs j w.registry.capsules
      → lookup j w'.nvram.segment_map ≡ some (corrected (refs j w.registry.capsules) seg)
  pub was :
      (j : SegmentId) (seg' : Segment)
      → lookup j w'.nvram.segment_map ≡ some seg'
      → (0 < refs j w.registry.capsules)
        × ((seg : Segment) × (lookup j w.nvram.segment_map ≡ some seg)
            × (seg' ≡ corrected (refs j w.registry.capsules) seg))
  pub content_stays :
      (h : ContentHash) (j : SegmentId)
      → lookup h w.registry.content_store ≡ some j
      → 0 < refs j w.registry.capsules
      → lookup h w'.registry.content_store ≡ some j
  pub content_was :
      (h : ContentHash) (j : SegmentId)
      → lookup h w'.registry.content_store ≡ some j
      → (lookup h w.registry.content_store ≡ some j) × (0 < refs j w.registry.capsules)

-- Halfway through the repair: each segment is as it was, or set right.
pub record Repairs (w w' : World) : Type 0 where
  pub else_same : SameElse w w'
  pub registry : w'.registry ≡ w.registry
  pub segments :
      (j : SegmentId) (seg : Segment)
      → lookup j w.nvram.segment_map ≡ some seg
      → (lookup j w'.nvram.segment_map ≡ some seg)
        ⊎ (lookup j w'.nvram.segment_map ≡ some (corrected (refs j w.registry.capsules) seg))
  pub was :
      (j : SegmentId) → lookup j w.nvram.segment_map ≡ none → lookup j w'.nvram.segment_map ≡ none

corrected_twice : (n : ℕ) (seg : Segment) → corrected n (corrected n seg) ≡ corrected n seg
corrected_twice n seg = elim (Bool-cases (nat_beq seg.ref_count n)) [
  | inl exact ↦ rw (exact, exact) refl
  | inr wrong ↦ rw wrong (let e : nat_beq n n ≡ true = ground arith in rw e refl)
]

pub Repairs-refl : (w : World) → Repairs w w
Repairs-refl w = record {
  else_same = SameElse-refl w;
  registry = refl;
  segments = λ j seg e. inl e;
  was = λ j e. e;
}

pub Repairs-trans : {w w1 w2 : World} → Repairs w w1 → Repairs w1 w2 → Repairs w w2
Repairs-trans {w} {w1} {w2} t u = record {
  else_same = SameElse-trans t.else_same u.else_same;
  registry = u.registry ∙ t.registry;
  segments = λ j seg e. elim (t.segments j seg e) [
    | inl as_before ↦ later j seg (u.segments j seg as_before)
    | inr right ↦ elim (u.segments j (corrected (refs j w.registry.capsules) seg) right) [
      | inl kept ↦ inr kept
      | inr again ↦ inr (
          again
          ∙ ap some (
              same j (corrected (refs j w.registry.capsules) seg)
              ∙ corrected_twice (refs j w.registry.capsules) seg))
    ]
  ];
  was = λ j e. u.was j (t.was j e);
}
  where
    same :
        (j : SegmentId) (seg : Segment)
        → corrected (refs j w1.registry.capsules) seg ≡ corrected (refs j w.registry.capsules) seg
    same j seg = ap (λ r. corrected (refs j r.capsules) seg) t.registry

    later :
        (j : SegmentId) (seg : Segment)
        → (lookup j w2.nvram.segment_map ≡ some seg)
          ⊎ (lookup j w2.nvram.segment_map ≡ some (corrected (refs j w1.registry.capsules) seg))
        → (lookup j w2.nvram.segment_map ≡ some seg)
          ⊎ (lookup j w2.nvram.segment_map ≡ some (corrected (refs j w.registry.capsules) seg))
    later j seg (inl e) = inl e
    later j seg (inr e) = inr (e ∙ ap some (same j seg))
