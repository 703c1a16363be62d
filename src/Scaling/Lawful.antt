-- ===== src/Scaling/Lawful.antt =====
-- What an action of the policy compiler may do, and what it answers (crates/scaling/src/compiler.rs).
use space.Prelude.{
  ℕ, ◌<◌, ◌≤◌, ◌≡◌, ◌≢◌, ◌↔◌, ◌⊎◌, nat_beq, refl, ap, true, false, ◌||◌, Option, none, some,
  Bool-cases, inl, inr, List, [], ◌∷◌, ◌++◌, length, ltb, leb, if◌then◌else◌, arith,
}
use space.Common.{Bytes, CapsuleId}
use space.Scaling.{
  NodeId, SovereigntyLevel, local, zone, global, ScalingPolicy, ZoneId, known, zone_beq, immediate,
  from_millis, from_secs, metro_sync, async_with_batching, ScalingAction, replicate, migrate,
  evacuate, rebalance, federate, shard_ec, MeshState, zone_ids, utilization,
  requires_transformation, select_migration_target,
}
use space.Scaling.Compile.{
  contains, disk_failure, power, strategy_for, replicate_to, migrate_to, compile_migration_for_heat,
  compile_evacuation, Floats, Telemetry, new_capsule, heat_spike, capacity_threshold, node_degraded,
  view_projection, rebalance_to, federate_if, filter_valid, is_valid, validate_sovereignty,
}
use space.Scaling.Targets.{among}
use space.Scaling.Selection.{Eligible, AreTargets, select_migration_target-least}
use space.Scaling.Evacuation.{Occurs, contains_iff}
use space.Scaling.Rebalancing.{IsUnderused}
use space.Scaling.Projection.{populated, zone_ids_iff}

filter_valid-same : (actions : List ScalingAction) → filter_valid actions ≡ actions
unfolding filter_valid is_valid
filter_valid-same [] = refl
filter_valid-same (a ∷ rest) = ap (λ l. a ∷ l) (filter_valid-same rest)

pub validate-same :
    (level : SovereigntyLevel) (actions : List ScalingAction)
    → validate_sovereignty level actions ≡ actions
unfolding validate_sovereignty
validate-same local actions = filter_valid-same actions
validate-same zone actions = filter_valid-same actions
validate-same global actions = refl

-- The zones are the local one and those of the nodes.
abbrev pub Covers : MeshState → List ZoneId → Type 0
Covers mesh zones =
    (z : ZoneId)
    → known z zones ≡ true ↔ zone_beq mesh.local_zone z || populated z mesh.nodes ≡ true

abbrev pub used_percent : {F : Type 0} → Floats F → ℕ → ℕ → F
used_percent floats used total =
    if ltb 0 total then floats.percent used total else floats.zero_percent

module _ {F : Type 0} (floats : Floats F) (event : Telemetry F) (policy : ScalingPolicy)
    (mesh : MeshState) where
  -- What an action may do, and what it answers.
  abbrev pub Lawful : ScalingAction → Type 0
  Lawful (replicate capsule strategy targets) =
      ((own : ScalingPolicy) × (event ≡ new_capsule capsule own))
      × (((policy.rpo ≡ 0) × (strategy ≡ metro_sync 2))
          ⊎ ((0 < policy.rpo)
              × (policy.rpo < from_secs 60)
              × (strategy ≡ async_with_batching policy.rpo)))
      × (0 < length targets)
      × AreTargets policy mesh targets
  Lawful (migrate capsule accesses node transform) =
      (event ≡ heat_spike capsule accesses)
      × (100 < accesses)
      × (policy.latency_target < from_millis 10)
      × Eligible policy mesh node
      × ((n : NodeId) → Eligible policy mesh n → utilization mesh node ≤ utilization mesh n)
      × (transform ≡ requires_transformation mesh policy node)
  Lawful (evacuate node reason urgency) =
      (event ≡ node_degraded node reason)
      × (urgency ≡ immediate ↔ Occurs disk_failure reason ⊎ Occurs power reason)
  Lawful (rebalance overloaded underutilized) =
      (node : NodeId) × (used : ℕ) × (total : ℕ) × (threshold : F) × (event
        ≡ capacity_threshold node used total threshold)
      × (overloaded ≡ node ∷ [])
      × (floats.at_least (used_percent floats used total) (floats.normalized threshold) ≡ true)
      × (floats.below (used_percent floats used total) floats.most ≡ false)
      × (0 < length underutilized)
      × ((u : NodeId) → among u underutilized ≡ true ↔ IsUnderused floats mesh.nodes u)
  Lawful (federate capsule z) =
      ((view : Bytes) × (event ≡ view_projection capsule view))
      × (policy.sovereignty ≢ local)
      × (z ≡ mesh.local_zone)
  Lawful (shard_ec capsule parity zones) =
      ((view : Bytes) × (event ≡ view_projection capsule view))
      × (policy.sovereignty ≢ local)
      × (parity ≡ 2)
      × Covers mesh zones

  abbrev pub AllLawful : List ScalingAction → Type 0
  AllLawful [] = Unit
  AllLawful (a ∷ rest) = Lawful a × AllLawful rest

  pub replicate_to-lawful :
      (capsule : CapsuleId) (own : ScalingPolicy) (ts : List NodeId)
      → event ≡ new_capsule capsule own
      → AreTargets policy mesh ts
      → AllLawful (replicate_to capsule (strategy_for policy.rpo) ts)
  unfolding replicate_to strategy_for
  replicate_to-lawful capsule own [] e h = tt
  replicate_to-lawful capsule own (t ∷ ts) e h = elim (Bool-cases (nat_beq policy.rpo 0)) [
    | inl zero_rpo ↦
        rw zero_rpo (((own, e), inl (ground (arith, zero_rpo), refl), omega arith, h), tt)
    | inr some_rpo ↦ elim (Bool-cases (ltb policy.rpo (from_secs 60))) [
      | inl tight ↦
          rw (some_rpo, tight)
            (
              (
                (own, e),
                inr (ground (arith, some_rpo), ground (arith, tight), refl),
                omega arith,
                h,
              ),
              tt,
            )
      | inr loose ↦ rw (some_rpo, loose) tt
    ]
  ]

  migrate_to-lawful :
      (capsule : CapsuleId) (accesses : ℕ) (found : Option NodeId)
      → event ≡ heat_spike capsule accesses
      → 100 < accesses
      → policy.latency_target < from_millis 10
      → select_migration_target policy mesh ≡ found
      → AllLawful (migrate_to capsule accesses policy mesh found)
  unfolding migrate_to
  migrate_to-lawful capsule accesses none answer hot low e = tt
  migrate_to-lawful capsule accesses (some node) answer hot low e =
      let (mine, least) = select_migration_target-least policy mesh node e in
      ((answer, hot, low, mine, least, refl), tt)

  pub migration_lawful :
      (capsule : CapsuleId) (accesses : ℕ)
      → event ≡ heat_spike capsule accesses
      → AllLawful (compile_migration_for_heat capsule accesses policy mesh)
  unfolding compile_migration_for_heat
  migration_lawful capsule accesses answer =
      elim (Bool-cases (leb accesses 100 || leb (from_millis 10) policy.latency_target)) [
        | inl cool ↦ rw cool tt
        | inr hot ↦ rw hot (
            migrate_to-lawful capsule accesses (select_migration_target policy mesh) answer
              (ground arith) (ground arith) refl)
      ]

  pub evacuation_lawful :
      (node : NodeId) (reason : Bytes)
      → event ≡ node_degraded node reason
      → AllLawful (compile_evacuation node reason)
  unfolding compile_evacuation
  evacuation_lawful node reason answer =
      let disk = contains_iff disk_failure reason in
      let cut = contains_iff power reason in
      elim (Bool-cases (contains disk_failure reason)) [
        | inl has ↦ rw has ((answer, (λ e. inl (disk.0 has), λ o. refl)), tt)
        | inr lacks ↦ elim (Bool-cases (contains power reason)) [
          | inl has ↦ rw (lacks, has) ((answer, (λ e. inr (cut.0 has), λ o. refl)), tt)
          | inr neither ↦
              rw (lacks, neither)
                (
                  (
                    answer,
                    (
                      λ e. cc,
                      λ o. elim o [
                        | inl there ↦ absurd (cc (lacks, disk.1 there))
                        | inr there ↦ absurd (cc (neither, cut.1 there))
                      ],
                    ),
                  ),
                  tt,
                )
        ]
      ]

  pub rebalancing_lawful :
      (node : NodeId) (used total : ℕ) (threshold : F) (us : List NodeId)
      → event ≡ capacity_threshold node used total threshold
      → floats.at_least (used_percent floats used total) (floats.normalized threshold) ≡ true
      → floats.below (used_percent floats used total) floats.most ≡ false
      → ((u : NodeId) → among u us ≡ true ↔ IsUnderused floats mesh.nodes u)
      → AllLawful (rebalance_to node us)
  unfolding rebalance_to
  rebalancing_lawful node used total threshold [] answer over high found = tt
  rebalancing_lawful node used total threshold (u ∷ us) answer over high found =
      ((node, used, total, threshold, answer, refl, over, high, omega arith, found), tt)

  pub projection_lawful :
      (capsule : CapsuleId) (view : Bytes) (level : SovereigntyLevel)
      → event ≡ view_projection capsule view
      → policy.sovereignty ≡ level
      → level ≢ local
      → AllLawful
          (federate_if level capsule mesh.local_zone ++ shard_ec capsule 2 (zone_ids mesh) ∷ [])
  unfolding federate_if
  projection_lawful capsule view local answer e away = absurd (away refl)
  projection_lawful capsule view zone answer e away = (
    ((view, answer), (λ f. cc), refl),
    (((view, answer), (λ f. cc), refl, zone_ids_iff mesh), tt),
  )
  projection_lawful capsule view global answer e away = (
    ((view, answer), (λ f. cc), refl),
    (((view, answer), (λ f. cc), refl, zone_ids_iff mesh), tt),
  )
