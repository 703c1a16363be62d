-- ===== src/Refcounts/Tally.antt =====
-- What `reconcile_refcounts` counts: for each segment, how often the capsules list it.
use space.Prelude.{
  ℕ, ◌+◌, ◌%◌, ◌<◌, ◌≡◌, refl, none, List, [], ◌∷◌, Map, lookup, Distinct, nat_eq, arith, eq_iff,
  lookup-insert, count, keys, Option-cases, inl, inr, ◌==◌, if◌then◌else◌,
}
use space.Common.{SegmentId, CapsuleId, Capsule, u32_mod}
use space.Pipeline.Reconcile.{bump, bump_all, segments_of, count_refs, expected_refs}
use space.Refcounts.{refs}

expected_refs-bump :
    (j id : SegmentId) (counts : Map SegmentId ℕ)
    → expected_refs j counts + 1 < u32_mod
    → expected_refs j (bump id counts) ≡ expected_refs j counts + (if id == j then 1 else 0)
unfolding expected_refs bump
expected_refs-bump j id counts small = elim (Option-cases (lookup id counts)) [
  | inl e ↦ rw (bump, e) (ground (arith, lookup-insert id j 1 counts, eq_iff id j, e))
  | inr (c, e) ↦
      rw (bump, e)
        (ground (arith, lookup-insert id j ((c + 1) % u32_mod) counts, eq_iff id j, e, small))
]

expected_refs-bump_all :
    (j : SegmentId) (ids : List SegmentId) (counts : Map SegmentId ℕ)
    → expected_refs j counts + count j ids + 1 < u32_mod
    → expected_refs j (bump_all ids counts) ≡ expected_refs j counts + count j ids
unfolding bump_all
expected_refs-bump_all j [] counts small = omega arith
expected_refs-bump_all j (id ∷ ids) counts small =
    let here = expected_refs-bump j id counts (omega arith) in
    let later = expected_refs-bump_all j ids (bump id counts) (omega (arith, here)) in
    omega (arith, here, later)

-- How often the capsules named in a list of ids list a segment.
refs_via : SegmentId → List CapsuleId → Map CapsuleId Capsule → ℕ
refs_via j [] m = 0
refs_via j (id ∷ ids) m = count j (segments_of (lookup id m)) + refs_via j ids m

expected_refs-count_refs :
    (j : SegmentId) (ids : List CapsuleId) (m : Map CapsuleId Capsule) (counts : Map SegmentId ℕ)
    → expected_refs j counts + refs_via j ids m + 1 < u32_mod
    → expected_refs j (count_refs ids m counts) ≡ expected_refs j counts + refs_via j ids m
unfolding count_refs refs_via
expected_refs-count_refs j [] m counts small = omega arith
expected_refs-count_refs j (id ∷ ids) m counts small =
    let segs = segments_of (lookup id m) in
    let here = expected_refs-bump_all j segs counts (omega arith) in
    let later = expected_refs-count_refs j ids m (bump_all segs counts) (omega (arith, here)) in
    omega (arith, here, later)

count-keys : (k : CapsuleId) (m : Map CapsuleId Capsule) → lookup k m ≡ none → count k (keys m) ≡ 0
unfolding lookup
count-keys k [] h = refl
count-keys k ((i, c) ∷ m) h = ground (arith, count-keys k m)

refs_via-tail :
    (j : SegmentId) (k : CapsuleId) (c : Capsule) (ids : List CapsuleId) (m : Map CapsuleId Capsule)
    → count k ids ≡ 0
    → refs_via j ids ((k, c) ∷ m) ≡ refs_via j ids m
unfolding refs_via lookup
refs_via-tail j k c [] m h = refl
refs_via-tail j k c (id ∷ ids) m h =
    ground (arith, refs_via-tail j k c ids m, eq_iff id k, eq_iff k id)

refs_via-keys :
    (j : SegmentId) (m : Map CapsuleId Capsule) → Distinct m → refs_via j (keys m) m ≡ refs j m
unfolding refs_via refs lookup segments_of
refs_via-keys j [] d = refl
refs_via-keys j ((k, c) ∷ m) d =
    ground (
      arith,
      eq_iff k k,
      refs_via-tail j k c (keys m) m (count-keys k m d.0),
      refs_via-keys j m d.1,
    )

-- The tally of a registry counts each segment as often as the capsules list it.
pub expected_refs-refs :
    (j : SegmentId) (m : Map CapsuleId Capsule)
    → Distinct m
    → refs j m + 1 < u32_mod
    → expected_refs j (count_refs (keys m) m []) ≡ refs j m
unfolding expected_refs lookup
expected_refs-refs j m d small =
    let via = refs_via-keys j m d in
    omega (arith, via, expected_refs-count_refs j (keys m) m [] (ground (arith, via)))
