-- ===== src/Layout/Cover.antt =====
-- The plan of the layout engine covers its input (crates/layout-engine/src/offload/cpu.rs).
use space.Prelude.{ℕ, ◌<◌, ◌≡◌, refl, ok, err, panicked, List, [], ◌∷◌, ◌++◌, append-nil, length}
use space.Common.{
  Bytes, CapsuleId, ContentHash, Policy, default_segment_size, LayoutStrategy, fixed,
  adaptive_entropy, zns_graph, learned, quantum_ready,
}
use space.Content.Chunks.{joined}
use space.Layout.{
  SegmentRef, ZonePlan, Planner, new_planner, capsule_id_for, close_zone, push_slices, last_zone,
  build_plan, compile, by_strategy, run_offload, LayoutOffload, cpu_fixed, cpu_entropy,
  cpu_quantum_ready, synthesize,
}
use space.Layout.Placing.{
  refs_of, Numbered, Covers, Placing, close_zone-Placing, push_slices-Placing,
}

module _ (hash_chunk : Bytes → ContentHash) (size : ℕ) (bytes : Bytes) where
  build_plan-Covers :
      (policy : Policy) (capsules : List CapsuleId) (slices : List Bytes)
      → default_segment_size policy.layout.strategy ≡ size
      → 0 < size
      → bytes ≡ joined slices
      → let plan = build_plan hash_chunk policy capsules slices in
        Covers hash_chunk size bytes 0 (refs_of plan.zones) (length bytes) × Numbered 0 plan.zones
  unfolding build_plan refs_of close_zone
  build_plan-Covers policy capsules slices sized pos whole =
      let p = push_slices hash_chunk (capsule_id_for capsules) size slices new_planner in
      let inv =
        push_slices-Placing hash_chunk size bytes (capsule_id_for capsules) slices [] new_planner
          pos whole refl
          (record {
            covered = refl;
            numbered = tt;
            counted = refl;
            current = refl;
            seeded = refl;
          }) in
      rw sized (finish p p.current_zone.segments refl inv)
    where
      finish :
          (p : Planner) (left : List SegmentRef)
          → p.current_zone.segments ≡ left
          → Placing hash_chunk size bytes p (length bytes)
          → Covers hash_chunk size bytes 0 (refs_of (last_zone left p)) (length bytes)
            × Numbered 0 (last_zone left p)
      finish p [] e inv = (rw (← append-nil (refs_of p.zones), ← e) inv.covered, inv.numbered)
      finish p (r ∷ rs) e inv =
          let closed = close_zone-Placing hash_chunk size bytes p (length bytes) inv in
          (
            rw (← append-nil (refs_of (p.zones ++ p.current_zone ∷ []))) closed.covered,
            closed.numbered,
          )

-- The strategies that the default features build.
abbrev pub Supported : LayoutStrategy → Type 0
Supported (fixed n) = Unit
Supported adaptive_entropy = Unit
Supported (zns_graph zone_size_mib radius) = ⊥
Supported (learned path) = ⊥
Supported (quantum_ready algo) = Unit

-- Every offload plans the zones of `CpuFixed`.
by_strategy_lem :
    (h : Bytes → ContentHash) (policy : Policy) (capsules : List CapsuleId) (slices : List Bytes)
    (s : LayoutStrategy)
    → (Supported s
        → (o : LayoutOffload) × (by_strategy policy s ≡ ok o)
          × ((run_offload h capsules slices o).zones ≡ (build_plan h policy capsules slices).zones))
      × (¬ Supported s → by_strategy policy s ≡ err panicked)
unfolding by_strategy run_offload
by_strategy_lem h policy capsules slices (fixed n) =
    (λ here. (cpu_fixed policy, refl, refl), λ other. absurd (other tt))
by_strategy_lem h policy capsules slices adaptive_entropy =
    (λ here. (cpu_entropy policy, refl, refl), λ other. absurd (other tt))
by_strategy_lem h policy capsules slices (zns_graph zone_size_mib radius) =
    (λ here. absurd here, λ other. refl)
by_strategy_lem h policy capsules slices (learned path) = (λ here. absurd here, λ other. refl)
by_strategy_lem h policy capsules slices (quantum_ready algo) =
    (λ here. (cpu_quantum_ready policy algo, refl, refl), λ other. absurd (other tt))

-- For a segment size above 0: the layout engine plans every strategy that is built in, and panics
-- for the others. The segments of a plan lie one behind the other, from the first byte of the
-- slices to the last, none longer than the segment size and each with the hash of its own bytes;
-- the zones are numbered from 0, and each number is the zone's seed, so that no two zones share
-- one.
pub synthesize_covers :
    (hash_chunk : Bytes → ContentHash) (policy : Policy) (capsules : List CapsuleId)
    (slices : List Bytes)
    → 0 < default_segment_size policy.layout.strategy
    → (Supported policy.layout.strategy
        → (plan : ZonePlan) × (synthesize hash_chunk policy capsules slices ≡ ok plan)
          × Covers hash_chunk
              (default_segment_size policy.layout.strategy)
              (joined slices)
              0
              (refs_of plan.zones)
              (length (joined slices))
          × Numbered 0 plan.zones)
      × (¬ Supported policy.layout.strategy
          → synthesize hash_chunk policy capsules slices ≡ err panicked)
unfolding synthesize compile
synthesize_covers h policy capsules slices pos =
    let covered =
      build_plan-Covers h (default_segment_size policy.layout.strategy) (joined slices) policy
        capsules slices refl pos refl in
    let (planned, refused) = by_strategy_lem h policy capsules slices policy.layout.strategy in
    (
      λ supported.
          let (o, e, zones) = planned supported in
          (run_offload h capsules slices o, rw e refl, rw zones covered.0, rw zones covered.1),
      λ other. rw (refused other) refl,
    )
