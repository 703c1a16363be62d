-- ===== src/Scaling.antt =====
-- crates/scaling/src/compiler.rs, the policy compiler, with the types of the feature `podms`
-- (crates/common/src/lib.rs and crates/common/src/policy.rs) and the snapshot that
-- crates/scaling/src/agent.rs builds. Names and texts are lists of bytes, a duration is its number of
-- nanoseconds, and the numbers of the types `f32` and `f64` are a parameter.
pub mod Compile
pub mod Targets
pub mod Evacuation
pub mod Rebalancing
pub mod Selection
pub mod Lawful
pub mod Sovereignty
pub mod Projection
use space.Prelude.{
  ℕ, ◌+◌, ◌*◌, ◌/◌, ◌%◌, Bool, true, false, not, ◌&&◌, ◌||◌, Option, none, some, List, [], ◌∷◌,
  ◌++◌, leb, ltb, nat_beq, bytes_beq, if◌then◌else◌, map, take,
}
use space.Common.{Bytes, CapsuleId, u64_mod}

abbrev pub NodeId : Type 0
NodeId = ℕ

pub data ZoneId : Type 0 where
  metro geo edge : Bytes → ZoneId

unfoldable pub zone_beq : ZoneId → ZoneId → Bool
zone_beq (metro a) (metro b) = bytes_beq a b
zone_beq (metro a) (geo b) = false
zone_beq (metro a) (edge b) = false
zone_beq (geo a) (metro b) = false
zone_beq (geo a) (geo b) = bytes_beq a b
zone_beq (geo a) (edge b) = false
zone_beq (edge a) (metro b) = false
zone_beq (edge a) (geo b) = false
zone_beq (edge a) (edge b) = bytes_beq a b

pub data SovereigntyLevel : Type 0 where
  local zone global : SovereigntyLevel

-- The fields of `Policy` that the compiler reads.
pub record ScalingPolicy : Type 0 where
  pub rpo : ℕ
  pub latency_target : ℕ
  pub sovereignty : SovereigntyLevel

abbrev pub from_millis : ℕ → ℕ
from_millis n = n * 1000000

abbrev pub from_secs : ℕ → ℕ
from_secs n = n * 1000000000

pub data ReplicationStrategy : Type 0 where
  metro_sync : ℕ → ReplicationStrategy
  async_with_batching : ℕ → ReplicationStrategy
  no_replication : ReplicationStrategy

pub data EvacuationUrgency : Type 0 where
  immediate gradual : EvacuationUrgency

-- The reason of a migration is the text "heat_spike_<n>_accesses_per_min"; `migrate` has the `n`.
pub data ScalingAction : Type 0 where
  replicate : CapsuleId → ReplicationStrategy → List NodeId → ScalingAction
  migrate : CapsuleId → ℕ → NodeId → Bool → ScalingAction
  evacuate : NodeId → Bytes → EvacuationUrgency → ScalingAction
  rebalance : List NodeId → List NodeId → ScalingAction
  federate : CapsuleId → ZoneId → ScalingAction
  shard_ec : CapsuleId → ℕ → List ZoneId → ScalingAction

pub record NodeInfo : Type 0 where
  pub zone_id : ZoneId
  pub available_bytes : ℕ
  pub used_bytes : ℕ

pub record MeshState : Type 0 where
  pub nodes : List (NodeId × NodeInfo)
  pub local_zone : ZoneId

abbrev pub node_ids : List (NodeId × NodeInfo) → List NodeId
node_ids [] = []
node_ids ((id, info) ∷ nodes) = id ∷ node_ids nodes

abbrev pub available_nodes : MeshState → List NodeId
available_nodes mesh = node_ids mesh.nodes

-- `iter().find(..)`.
unfoldable pub find_node : NodeId → List (NodeId × NodeInfo) → Option NodeInfo
find_node node [] = none
find_node node ((id, info) ∷ nodes) = if nat_beq id node then some info else find_node node nodes

-- `map(..).unwrap_or(false)`.
unfoldable pub info_is : (NodeInfo → Bool) → Option NodeInfo → Bool
info_is test none = false
info_is test (some info) = test info

abbrev pub known : ZoneId → List ZoneId → Bool
known z [] = false
known z (y ∷ ys) = zone_beq y z || known z ys

unfoldable pub add_zones : List (NodeId × NodeInfo) → List ZoneId → List ZoneId
add_zones [] zones = zones
add_zones ((id, info) ∷ nodes) zones =
    add_zones nodes (if known info.zone_id zones then zones else zones ++ info.zone_id ∷ [])

unfoldable pub zone_ids : MeshState → List ZoneId
unfolding add_zones
zone_ids mesh = add_zones mesh.nodes (mesh.local_zone ∷ [])

unfoldable pub satisfies_sovereignty : MeshState → SovereigntyLevel → NodeId → Bool
unfolding info_is find_node
satisfies_sovereignty mesh global node = true
satisfies_sovereignty mesh zone node =
    info_is (λ info. zone_beq info.zone_id mesh.local_zone) (find_node node mesh.nodes)
satisfies_sovereignty mesh local node = false

unfoldable pub is_metro : ZoneId → Bool
is_metro (metro a) = true
is_metro (geo a) = false
is_metro (edge a) = false

unfoldable pub is_metro_zone : MeshState → NodeId → Bool
unfolding info_is find_node is_metro
is_metro_zone mesh node = info_is (λ info. is_metro info.zone_id) (find_node node mesh.nodes)

unfoldable pub same_region : ZoneId → ZoneId → Bool
same_region (metro a) (metro b) = bytes_beq a b
same_region (geo a) (geo b) = bytes_beq a b
same_region (edge a) z = false
same_region (metro a) (geo b) = false
same_region (metro a) (edge b) = false
same_region (geo a) (metro b) = false
same_region (geo a) (edge b) = false

unfoldable pub is_same_geo_region : MeshState → NodeId → Bool
unfolding info_is find_node same_region
is_same_geo_region mesh node =
    info_is (λ info. same_region mesh.local_zone info.zone_id) (find_node node mesh.nodes)

unfoldable pub has_capacity : MeshState → ℕ → NodeId → Bool
unfolding info_is find_node
has_capacity mesh required node =
    info_is (λ info. leb required info.available_bytes) (find_node node mesh.nodes)

-- In percent, with the wrap of `u64`; an unknown node counts as full.
unfoldable pub percent_used : Option NodeInfo → ℕ
percent_used none = 100
percent_used (some info) =
    let total = (info.available_bytes + info.used_bytes) % u64_mod in
    if nat_beq total 0 then 0 else info.used_bytes * 100 % u64_mod / total

unfoldable pub utilization : MeshState → NodeId → ℕ
unfolding percent_used find_node
utilization mesh node = percent_used (find_node node mesh.nodes)

unfoldable pub crosses_zone : MeshState → SovereigntyLevel → NodeId → Bool
unfolding info_is find_node
crosses_zone mesh zone node =
    info_is (λ info. not (zone_beq info.zone_id mesh.local_zone)) (find_node node mesh.nodes)
crosses_zone mesh local node = false
crosses_zone mesh global node = false

unfoldable pub requires_transformation : MeshState → ScalingPolicy → NodeId → Bool
unfolding crosses_zone
requires_transformation mesh policy node = crosses_zone mesh policy.sovereignty node

-- `retain` and `filter`.
unfoldable pub retain : (NodeId → Bool) → List NodeId → List NodeId
retain test [] = []
retain test (n ∷ ns) = let rest = retain test ns in if test n then n ∷ rest else rest

unfoldable pub by_latency : MeshState → ℕ → List NodeId → List NodeId
unfolding is_metro_zone is_same_geo_region retain
by_latency mesh latency candidates =
    if ltb latency (from_millis 2)
    then retain (is_metro_zone mesh) candidates
    else (if ltb latency (from_millis 100)
        then retain (is_same_geo_region mesh) candidates
        else candidates)

unfoldable pub select_replication_targets : ScalingPolicy → MeshState → List NodeId
unfolding satisfies_sovereignty by_latency has_capacity retain
select_replication_targets policy mesh =
    let candidates =
      retain (satisfies_sovereignty mesh policy.sovereignty) (available_nodes mesh) in
    take 2 (retain (has_capacity mesh 1000000) (by_latency mesh policy.latency_target candidates))

-- `min_by_key`: the first of the least ones.
unfoldable pub min_by_key : (NodeId → ℕ) → List NodeId → Option NodeId
min_by_key key [] = none
min_by_key key (n ∷ ns) = elim (min_by_key key ns) [
  | none ↦ some n
  | some m ↦ some (if leb (key n) (key m) then n else m)
]

unfoldable pub select_migration_target : ScalingPolicy → MeshState → Option NodeId
unfolding satisfies_sovereignty is_metro_zone has_capacity utilization retain min_by_key
select_migration_target policy mesh =
    let candidates =
      retain (satisfies_sovereignty mesh policy.sovereignty) (available_nodes mesh) in
    let near =
      if ltb policy.latency_target (from_millis 2)
      then retain (is_metro_zone mesh) candidates
      else candidates in
    min_by_key (utilization mesh) (retain (has_capacity mesh 10000000) near)
