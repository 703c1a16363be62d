-- ===== src/Scaling/Sovereignty.antt =====
-- What the policy compiler answers to an event (crates/scaling/src/compiler.rs).
use space.Prelude.{◌≤◌, ◌≡◌, ◌⊎◌, true, false, List, [], ◌∷◌}
use space.Common.{Bytes, CapsuleId}
use space.Scaling.{
  NodeId, local, ScalingPolicy, ZoneId, from_millis, from_secs, ScalingAction, shard_ec, MeshState,
}
use space.Scaling.Compile.{
  Floats, Telemetry, new_capsule, heat_spike, capacity_threshold, node_degraded, view_projection,
}
use space.Scaling.Selection.{Candidate, Eligible}
use space.Scaling.Rebalancing.{IsUnderused}
use space.Scaling.Lawful.{Covers, used_percent, AllLawful}

module _ {F : Type 0} (floats : Floats F) (policy : ScalingPolicy) (mesh : MeshState) where
  -- An event whose actions shard a capsule that local sovereignty keeps on its node.
  abbrev pub LeavesHome : Telemetry F → List ScalingAction → Type 0
  LeavesHome event actions =
      (policy.sovereignty ≡ local)
      × ((capsule : CapsuleId) × (view : Bytes) × (zones : List ZoneId) × (event
            ≡ view_projection capsule view)
          × (actions ≡ shard_ec capsule 2 zones ∷ [])
          × Covers mesh zones)

  abbrev Answers : Telemetry F → List ScalingAction → Type 0
  Answers event actions = AllLawful floats event policy mesh actions ⊎ LeavesHome event actions

  -- What lets an event go unanswered.
  abbrev pub Excused : Telemetry F → Type 0
  Excused (new_capsule id own) =
      (from_secs 60 ≤ policy.rpo) ⊎ ((n : NodeId) → ¬ Candidate policy mesh n)
  Excused (heat_spike id accesses) =
      (accesses ≤ 100)
      ⊎ (from_millis 10 ≤ policy.latency_target)
      ⊎ ((n : NodeId) → ¬ Eligible policy mesh n)
  Excused (capacity_threshold node used total threshold) =
      (floats.at_least (used_percent floats used total) (floats.normalized threshold) ≡ false)
      ⊎ (floats.below (used_percent floats used total) floats.most ≡ true)
      ⊎ ((u : NodeId) → ¬ IsUnderused floats mesh.nodes u)
  Excused (node_degraded node reason) = ⊥
  Excused (view_projection id view) = ⊥
