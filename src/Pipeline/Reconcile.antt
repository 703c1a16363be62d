-- ===== src/Pipeline/Reconcile.antt =====
-- `reconcile_refcounts`: the counts that the capsules imply, written back to the log.
use space.Prelude.{
  ℕ, ◌+◌, ◌%◌, Option, none, some, Exec, ◌>>=◌, ◌>>◌, pure, gets, List, [], ◌∷◌, Map, lookup,
  insert, nat_beq, nat_eq, ltb, if◌then◌else◌,
}
use space.Common.{SegmentId, CapsuleId, Capsule, Segment, u32_mod}
use space.Nvram.{fine, update_segment_metadata, list_segments}
use space.Registry.{list_capsules}
use space.Gc.{World, on_nvram, sweep}

unfoldable pub bump : SegmentId → Map SegmentId ℕ → Map SegmentId ℕ
bump id counts = elim (lookup id counts) [
  | none ↦ insert id 1 counts
  | some c ↦ insert id ((c + 1) % u32_mod) counts
]

unfoldable pub bump_all : List SegmentId → Map SegmentId ℕ → Map SegmentId ℕ
unfolding bump
bump_all [] counts = counts
bump_all (id ∷ ids) counts = bump_all ids (bump id counts)

unfoldable pub segments_of : Option Capsule → List SegmentId
segments_of none = []
segments_of (some c) = c.segments

unfoldable pub count_refs :
    List CapsuleId → Map CapsuleId Capsule → Map SegmentId ℕ → Map SegmentId ℕ
unfolding bump_all segments_of
count_refs [] capsules counts = counts
count_refs (id ∷ ids) capsules counts =
    count_refs ids capsules (bump_all (segments_of (lookup id capsules)) counts)

unfoldable pub expected_refs : SegmentId → Map SegmentId ℕ → ℕ
expected_refs id counts = elim (lookup id counts) [ none ↦ 0 | some c ↦ c ]

unfoldable pub repair : Map SegmentId ℕ → List Segment → Exec World (Unit {0})
unfolding expected_refs
repair counts [] = pure tt
repair counts (segment ∷ rest) =
    let others = repair counts rest in
    let expected = expected_refs segment.id counts in
    let fixed = record segment { ref_count = expected; deduplicated = ltb 1 expected } in
    if nat_beq segment.ref_count expected
    then others
    else (do on_nvram (update_segment_metadata fine segment.id fixed); others)

unfoldable pub reconcile_refcounts : Exec World (Unit {0})
unfolding count_refs repair
reconcile_refcounts = do
  counts ← gets (λ w. count_refs (list_capsules w.registry) w.registry.capsules [])
  segments ← gets (λ w. list_segments w.nvram)
  repair counts segments
  sweep
  pure tt

-- `WritePipeline::new` reconciles, and goes on with what that left if it fails.
abbrev pub new_pipeline : World → World
new_pipeline w = (reconcile_refcounts w).1
