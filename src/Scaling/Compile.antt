-- ===== src/Scaling/Compile.antt =====
-- `compile_scaling_actions` of crates/scaling/src/compiler.rs, and the agent's call of it
-- (crates/scaling/src/agent.rs).
use space.Prelude.{
  ℕ, ◌+◌, ◌%◌, Bool, true, false, ◌&&◌, ◌||◌, Option, none, some, List, [], ◌∷◌, ◌++◌, leb, ltb,
  nat_beq, if◌then◌else◌,
}
use space.Common.{Bytes, CapsuleId, u64_mod}
use space.Scaling.{
  MeshState, NodeId, NodeInfo, ReplicationStrategy, ScalingAction, ScalingPolicy, SovereigntyLevel,
  ZoneId, async_with_batching, evacuate, federate, from_millis, from_secs, global, gradual,
  immediate, local, metro_sync, migrate, no_replication, rebalance, replicate,
  requires_transformation, select_migration_target, select_replication_targets, shard_ec, zone,
  zone_ids,
}

unfoldable pub strategy_for : ℕ → ReplicationStrategy
strategy_for rpo =
    if nat_beq rpo 0
    then metro_sync 2
    else (if ltb rpo (from_secs 60) then async_with_batching rpo else no_replication)

unfoldable pub replicate_to : CapsuleId → ReplicationStrategy → List NodeId → List ScalingAction
replicate_to capsule strategy [] = []
replicate_to capsule no_replication (t ∷ ts) = []
replicate_to capsule (metro_sync n) (t ∷ ts) = replicate capsule (metro_sync n) (t ∷ ts) ∷ []
replicate_to capsule (async_with_batching rpo) (t ∷ ts) =
    replicate capsule (async_with_batching rpo) (t ∷ ts) ∷ []

unfoldable pub compile_replication_strategy :
    CapsuleId → ScalingPolicy → MeshState → List ScalingAction
unfolding strategy_for replicate_to select_replication_targets
compile_replication_strategy capsule policy mesh =
    replicate_to capsule (strategy_for policy.rpo) (select_replication_targets policy mesh)

unfoldable pub migrate_to :
    CapsuleId → ℕ → ScalingPolicy → MeshState → Option NodeId → List ScalingAction
unfolding requires_transformation
migrate_to capsule accesses policy mesh none = []
migrate_to capsule accesses policy mesh (some node) =
    migrate capsule accesses node (requires_transformation mesh policy node) ∷ []

unfoldable pub compile_migration_for_heat :
    CapsuleId → ℕ → ScalingPolicy → MeshState → List ScalingAction
unfolding migrate_to select_migration_target
compile_migration_for_heat capsule accesses policy mesh =
    if leb accesses 100 || leb (from_millis 10) policy.latency_target
    then []
    else migrate_to capsule accesses policy mesh (select_migration_target policy mesh)

abbrev pub starts_with : Bytes → Bytes → Bool
starts_with [] text = true
starts_with (p ∷ ps) [] = false
starts_with (p ∷ ps) (c ∷ cs) = nat_beq p c && starts_with ps cs

abbrev pub contains : Bytes → Bytes → Bool
contains pattern [] = starts_with pattern []
contains pattern (c ∷ cs) = starts_with pattern (c ∷ cs) || contains pattern cs

-- The texts "disk_failure" and "power".
abbrev pub disk_failure : Bytes
disk_failure = 100 ∷ 105 ∷ 115 ∷ 107 ∷ 95 ∷ 102 ∷ 97 ∷ 105 ∷ 108 ∷ 117 ∷ 114 ∷ 101 ∷ []

abbrev pub power : Bytes
power = 112 ∷ 111 ∷ 119 ∷ 101 ∷ 114 ∷ []

unfoldable pub compile_evacuation : NodeId → Bytes → List ScalingAction
compile_evacuation node reason =
    evacuate node reason
      (if contains disk_failure reason || contains power reason then immediate else gradual)
    ∷ []

unfoldable pub rebalance_to : NodeId → List NodeId → List ScalingAction
rebalance_to node [] = []
rebalance_to node (u ∷ us) = rebalance (node ∷ []) (u ∷ us) ∷ []

unfoldable pub federate_if : SovereigntyLevel → CapsuleId → ZoneId → List ScalingAction
federate_if local capsule z = []
federate_if zone capsule z = federate capsule z ∷ []
federate_if global capsule z = federate capsule z ∷ []

-- `zone_ids` always has the local zone, so it is not empty.
unfoldable pub project : CapsuleId → ScalingPolicy → MeshState → List ScalingAction
unfolding federate_if zone_ids
project capsule policy mesh =
    federate_if policy.sovereignty capsule mesh.local_zone
    ++ shard_ec capsule 2 (zone_ids mesh) ∷ []

-- Every action is found valid; the checks are placeholders in the code.
unfoldable pub is_valid : ScalingAction → Bool
is_valid action = true

unfoldable pub filter_valid : List ScalingAction → List ScalingAction
filter_valid [] = []
filter_valid (a ∷ rest) =
    let others = filter_valid rest in if is_valid a then a ∷ others else others

unfoldable pub validate_sovereignty : SovereigntyLevel → List ScalingAction → List ScalingAction
unfolding filter_valid is_valid
validate_sovereignty global actions = actions
validate_sovereignty zone actions = filter_valid actions
validate_sovereignty local actions = filter_valid actions

-- The floating-point numbers: a percentage of a total, the normalized threshold, the numbers 0, 50
-- and 80, and the tests `<` and `>=`.
pub record Floats (F : Type 0) : Type 0 where
  pub percent : ℕ → ℕ → F
  pub normalized : F → F
  pub zero_percent : F
  pub half : F
  pub most : F
  pub below : F → F → Bool
  pub at_least : F → F → Bool

-- The policy of a new capsule and the nodes that report are not used by the compiler.
pub data Telemetry (F : Type 0) : Type 0 where
  new_capsule : CapsuleId → ScalingPolicy → Telemetry F
  heat_spike : CapsuleId → ℕ → Telemetry F
  capacity_threshold : NodeId → ℕ → ℕ → F → Telemetry F
  node_degraded : NodeId → Bytes → Telemetry F
  view_projection : CapsuleId → Bytes → Telemetry F

abbrev pub peers_in : ZoneId → List NodeId → List (NodeId × NodeInfo)
peers_in z [] = []
peers_in z (p ∷ ps) =
    (p, record { zone_id = z; available_bytes = 1000000000; used_bytes = 100000000 })
    ∷ peers_in z ps

-- `build_mesh_state` of the agent: every peer is taken to be in the agent's zone.
unfoldable pub build_mesh_state : ZoneId → List NodeId → MeshState
build_mesh_state z peers = record { nodes = peers_in z peers; local_zone = z }

-- `Policy::metro_sync`.
abbrev pub metro_sync_policy : ScalingPolicy
metro_sync_policy = record { rpo = 0; latency_target = from_millis 2; sovereignty = zone }

module _ {F : Type 0} where
  unfoldable pub find_underutilized : Floats F → List (NodeId × NodeInfo) → List NodeId
  find_underutilized floats [] = []
  find_underutilized floats ((id, info) ∷ nodes) =
      let rest = find_underutilized floats nodes in
      let total = (info.available_bytes + info.used_bytes) % u64_mod in
      if nat_beq total 0
      then rest
      else (if floats.below (floats.percent info.used_bytes total) floats.half
          then id ∷ rest
          else rest)

  unfoldable pub compile_rebalancing : Floats F → NodeId → F → MeshState → List ScalingAction
  unfolding find_underutilized rebalance_to
  compile_rebalancing floats node used mesh =
      if floats.below used floats.most
      then []
      else rebalance_to node (find_underutilized floats mesh.nodes)

  unfoldable pub compile_event :
      Floats F → Telemetry F → ScalingPolicy → MeshState → List ScalingAction
  unfolding compile_replication_strategy compile_migration_for_heat compile_rebalancing
      compile_evacuation project
  compile_event floats (new_capsule id own) policy mesh =
      compile_replication_strategy id policy mesh
  compile_event floats (heat_spike id accesses) policy mesh =
      compile_migration_for_heat id accesses policy mesh
  compile_event floats (capacity_threshold node used total threshold) policy mesh =
      let used_percent = if ltb 0 total then floats.percent used total else floats.zero_percent in
      if floats.at_least used_percent (floats.normalized threshold)
      then compile_rebalancing floats node used_percent mesh
      else []
  compile_event floats (node_degraded node reason) policy mesh = compile_evacuation node reason
  compile_event floats (view_projection id view) policy mesh = project id policy mesh

  unfoldable pub compile_scaling_actions :
      Floats F → Telemetry F → ScalingPolicy → MeshState → List ScalingAction
  unfolding compile_event validate_sovereignty
  compile_scaling_actions floats event policy mesh =
      validate_sovereignty policy.sovereignty (compile_event floats event policy mesh)

  -- The policy that the agent compiles an event under.
  unfoldable pub policy_for : Telemetry F → ScalingPolicy
  policy_for (new_capsule id own) = own
  policy_for (heat_spike id accesses) = metro_sync_policy
  policy_for (capacity_threshold node used total threshold) = metro_sync_policy
  policy_for (node_degraded node reason) = metro_sync_policy
  policy_for (view_projection id view) = metro_sync_policy

  -- What `handle_telemetry_event` of the agent executes.
  unfoldable pub agent_actions : Floats F → ZoneId → List NodeId → Telemetry F → List ScalingAction
  unfolding policy_for build_mesh_state compile_scaling_actions
  agent_actions floats z peers event =
      compile_scaling_actions floats event (policy_for event) (build_mesh_state z peers)
