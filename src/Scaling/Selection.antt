-- ===== src/Scaling/Selection.antt =====
-- Which nodes the policy compiler selects (crates/scaling/src/compiler.rs).
use space.Prelude.{
  ◌<◌, ◌≤◌, ◌≡◌, refl, Bool, true, false, none, some, Bool-cases, inl, inr, List, [], length, take,
  length-take-le, ltb, if◌then◌else◌, arith,
}
use space.Scaling.{
  NodeId, ScalingPolicy, from_millis, MeshState, available_nodes, satisfies_sovereignty,
  is_metro_zone, is_same_geo_region, has_capacity, utilization, retain, by_latency,
  select_replication_targets, select_migration_target,
}
use space.Scaling.Targets.{
  among, All, retain-All, retain-keeps, among-retain, among-unretain, take-none, min_by_key-none,
  take-All, min_by_key-least,
}

module _ (policy : ScalingPolicy) (mesh : MeshState) where
  -- A node that may take a migrated capsule.
  abbrev pub Eligible : NodeId → Type 0
  Eligible n =
      (among n (available_nodes mesh) ≡ true)
      × (satisfies_sovereignty mesh policy.sovereignty n ≡ true)
      × (policy.latency_target < from_millis 2 → is_metro_zone mesh n ≡ true)
      × (has_capacity mesh 10000000 n ≡ true)

  by_latency-All :
      (test : NodeId → Bool) (ns : List NodeId)
      → All test ns
      → All test (by_latency mesh policy.latency_target ns)
  unfolding by_latency
  by_latency-All test ns h = elim (Bool-cases (ltb policy.latency_target (from_millis 2))) [
    | inl e ↦ rw e (retain-keeps (is_metro_zone mesh) test ns h)
    | inr e ↦ rw e (elim (Bool-cases (ltb policy.latency_target (from_millis 100))) [
      | inl f ↦ rw f (retain-keeps (is_same_geo_region mesh) test ns h)
      | inr f ↦ rw f h
    ])
  ]

  by_latency-metro :
      (ns : List NodeId)
      → policy.latency_target < from_millis 2
      → All (is_metro_zone mesh) (by_latency mesh policy.latency_target ns)
  unfolding by_latency
  by_latency-metro ns low =
      let e : ltb policy.latency_target (from_millis 2) ≡ true = ground arith in
      rw e (retain-All (is_metro_zone mesh) ns)

  by_latency-region :
      (ns : List NodeId)
      → from_millis 2 ≤ policy.latency_target
      → policy.latency_target < from_millis 100
      → All (is_same_geo_region mesh) (by_latency mesh policy.latency_target ns)
  unfolding by_latency
  by_latency-region ns high low =
      let e : ltb policy.latency_target (from_millis 2) ≡ false = ground arith in
      let f : ltb policy.latency_target (from_millis 100) ≡ true = ground arith in
      rw (e, f) (retain-All (is_same_geo_region mesh) ns)

  pub record AreTargets (ts : List NodeId) : Type 0 where
    pub short : length ts ≤ 2
    pub sovereign : All (satisfies_sovereignty mesh policy.sovereignty) ts
    pub roomy : All (has_capacity mesh 1000000) ts
    pub near : policy.latency_target < from_millis 2 → All (is_metro_zone mesh) ts
    pub regional :
        from_millis 2 ≤ policy.latency_target
        → policy.latency_target < from_millis 100
        → All (is_same_geo_region mesh) ts

  pub select_replication_targets-AreTargets : AreTargets (select_replication_targets policy mesh)
  unfolding select_replication_targets
  select_replication_targets-AreTargets =
      let first = retain (satisfies_sovereignty mesh policy.sovereignty) (available_nodes mesh) in
      let close = by_latency mesh policy.latency_target first in
      let roomy = has_capacity mesh 1000000 in
      let kept : (test : NodeId → Bool) → All test close → All test (take 2 (retain roomy close)) =
        λ test h. take-All 2 test (retain roomy close) (retain-keeps roomy test close h) in
      record {
        short = length-take-le 2 (retain roomy close);
        sovereign = kept (satisfies_sovereignty mesh policy.sovereignty) (
            by_latency-All _ first
              (retain-All (satisfies_sovereignty mesh policy.sovereignty) (available_nodes mesh)));
        roomy = take-All 2 roomy (retain roomy close) (retain-All roomy close);
        near = λ low. kept (is_metro_zone mesh) (by_latency-metro first low);
        regional = λ high low. kept (is_same_geo_region mesh) (by_latency-region first high low);
      }

  abbrev near_enough : List NodeId → List NodeId
  near_enough ns =
      if ltb policy.latency_target (from_millis 2) then retain (is_metro_zone mesh) ns else ns

  near_enough-in :
      (ns : List NodeId) (n : NodeId)
      → among n ns ≡ true
      → (policy.latency_target < from_millis 2 → is_metro_zone mesh n ≡ true)
      → among n (near_enough ns) ≡ true
  near_enough-in ns n there close = elim (Bool-cases (ltb policy.latency_target (from_millis 2))) [
    | inl e ↦ rw e (among-retain (is_metro_zone mesh) ns n there (close (ground arith)))
    | inr e ↦ rw e there
  ]

  near_enough-out :
      (ns : List NodeId) (n : NodeId)
      → among n (near_enough ns) ≡ true
      → (among n ns ≡ true) × (policy.latency_target < from_millis 2 → is_metro_zone mesh n ≡ true)
  near_enough-out ns n there = split (ltb policy.latency_target (from_millis 2)) refl there
    where
      split :
          (t : Bool)
          → ltb policy.latency_target (from_millis 2) ≡ t
          → among n (if t then retain (is_metro_zone mesh) ns else ns) ≡ true
          → (among n ns ≡ true)
            × (policy.latency_target < from_millis 2 → is_metro_zone mesh n ≡ true)
      split true e h =
          let (here, close) = among-unretain (is_metro_zone mesh) ns n h in (here, λ low. close)
      split false e h = (h, λ low. absurd (ground arith))

  pub select_migration_target-least :
      (node : NodeId)
      → select_migration_target policy mesh ≡ some node
      → Eligible node × ((n : NodeId) → Eligible n → utilization mesh node ≤ utilization mesh n)
  unfolding select_migration_target
  select_migration_target-least node e =
      let level = satisfies_sovereignty mesh policy.sovereignty in
      let first = retain level (available_nodes mesh) in
      let roomy = has_capacity mesh 10000000 in
      let (there, least) =
        min_by_key-least (utilization mesh) (retain roomy (near_enough first)) node e in
      let (near, room) = among-unretain roomy (near_enough first) node there in
      let (chosen, close) = near_enough-out first node near in
      let (known_node, sovereign) = among-unretain level (available_nodes mesh) node chosen in
      (
        (known_node, sovereign, close, room),
        λ n ok_node. least n (
            among-retain roomy (near_enough first) n
              (near_enough-in first n
                (among-retain level (available_nodes mesh) n ok_node.0 ok_node.1) ok_node.2)
              ok_node.3),
      )

  -- A node that may get a replica.
  abbrev pub Candidate : NodeId → Type 0
  Candidate n =
      (among n (available_nodes mesh) ≡ true)
      × (satisfies_sovereignty mesh policy.sovereignty n ≡ true)
      × (policy.latency_target < from_millis 2 → is_metro_zone mesh n ≡ true)
      × (from_millis 2 ≤ policy.latency_target
          → policy.latency_target < from_millis 100
          → is_same_geo_region mesh n ≡ true)
      × (has_capacity mesh 1000000 n ≡ true)

  by_latency-in :
      (ns : List NodeId) (n : NodeId)
      → among n ns ≡ true
      → Candidate n
      → among n (by_latency mesh policy.latency_target ns) ≡ true
  unfolding by_latency
  by_latency-in ns n there c = elim (Bool-cases (ltb policy.latency_target (from_millis 2))) [
    | inl e ↦ rw e (among-retain (is_metro_zone mesh) ns n there (c.2 (ground arith)))
    | inr e ↦ rw e (elim (Bool-cases (ltb policy.latency_target (from_millis 100))) [
      | inl f ↦
          rw f
            (among-retain (is_same_geo_region mesh) ns n there (c.3 (ground arith) (ground arith)))
      | inr f ↦ rw f there
    ])
  ]

  -- No targets are found only where there is no candidate.
  pub select_replication_targets-none :
      select_replication_targets policy mesh ≡ [] → (n : NodeId) → ¬ Candidate n
  unfolding select_replication_targets
  select_replication_targets-none e n c =
      let level = satisfies_sovereignty mesh policy.sovereignty in
      let first = retain level (available_nodes mesh) in
      let close = by_latency mesh policy.latency_target first in
      let roomy = has_capacity mesh 1000000 in
      let there =
        among-retain roomy close n
          (by_latency-in first n (among-retain level (available_nodes mesh) n c.0 c.1) c) c.4 in
      cc (take-none (retain roomy close) n e, there)

  -- No target is found only where no node is eligible.
  pub select_migration_target-none :
      select_migration_target policy mesh ≡ none → (n : NodeId) → ¬ Eligible n
  unfolding select_migration_target
  select_migration_target-none e n c =
      let level = satisfies_sovereignty mesh policy.sovereignty in
      let first = retain level (available_nodes mesh) in
      let roomy = has_capacity mesh 10000000 in
      let there =
        among-retain roomy (near_enough first) n
          (near_enough-in first n (among-retain level (available_nodes mesh) n c.0 c.1) c.2) c.3 in
      cc (min_by_key-none (utilization mesh) (retain roomy (near_enough first)) n e, there)
