-- ===== src/Layout.antt =====
-- crates/layout-engine/src: lib.rs, compiler.rs and offload/cpu.rs, built with its default features
-- (no `zns`, `ml` or `pq`). Offsets are positions in a slice in memory, so their sums do not wrap.
pub mod Placing
pub mod Cover
use space.Prelude.{
  ℕ, zero, ◌+◌, Option, none, some, Result, ok, err, panicked, map_ok, List, [], ◌∷◌, ◌++◌, leb,
  if◌then◌else◌, length,
}
use space.Common.{
  Bytes, CapsuleId, ContentHash, LayoutStrategy, fixed, adaptive_entropy, zns_graph, learned,
  quantum_ready, MerkleAlgo, blake3, sphincs_plus, Policy, default_segment_size,
}
use space.Pipeline.Write.{chunks}
use space.Content.Chunks.{joined}

pub record SegmentRef : Type 0 where
  pub capsule_id : CapsuleId
  pub offset : ℕ
  pub len : ℕ
  pub compressed_hash : ContentHash

pub record Zone : Type 0 where
  pub id : ℕ
  pub iv_seed : ℕ
  pub segments : List SegmentRef

pub record ZonePlan : Type 0 where
  pub zones : List Zone
  pub merkle_root : Option ContentHash

-- The offloads that `compile` boxes.
pub data LayoutOffload : Type 0 where
  cpu_fixed cpu_entropy : Policy → LayoutOffload
  cpu_quantum_ready : Policy → MerkleAlgo → LayoutOffload

-- Layouts whose feature is not built in panic.
unfoldable pub by_strategy : Policy → LayoutStrategy → Result LayoutOffload
by_strategy policy (fixed size) = ok (cpu_fixed policy)
by_strategy policy adaptive_entropy = ok (cpu_entropy policy)
by_strategy policy (zns_graph zone_size_mib radius) = err panicked
by_strategy policy (learned path) = err panicked
by_strategy policy (quantum_ready algo) = ok (cpu_quantum_ready policy algo)

unfoldable pub compile : Policy → Result LayoutOffload
unfolding by_strategy
compile policy = by_strategy policy policy.layout.strategy

abbrev pub new_zone : ℕ → Zone
new_zone id = record { id = id; iv_seed = id; segments = [] }

-- `capsules.first()`, or the id that is all zeros.
unfoldable pub capsule_id_for : List CapsuleId → CapsuleId
capsule_id_for [] = 0
capsule_id_for (c ∷ cs) = c

-- The variables of `build_plan`.
pub record Planner : Type 0 where
  pub zones : List Zone
  pub zone_id : ℕ
  pub current_zone : Zone
  pub zone_usage : ℕ
  pub cursor : ℕ

unfoldable pub close_zone : Planner → Planner
close_zone p = record p {
  zones = p.zones ++ p.current_zone ∷ [];
  zone_id = p.zone_id + 1;
  current_zone = new_zone (p.zone_id + 1);
  zone_usage = 0;
}

unfoldable pub last_zone : List SegmentRef → Planner → List Zone
last_zone [] p = p.zones
last_zone (s ∷ rest) p = p.zones ++ p.current_zone ∷ []

abbrev pub new_planner : Planner
new_planner = record {
  zones = [];
  zone_id = 0;
  current_zone = new_zone 0;
  zone_usage = 0;
  cursor = 0;
}

module _ (hash_chunk : Bytes → ContentHash) where
  module _ (capsule : CapsuleId) (segment_size : ℕ) where
    -- The current zone is not empty after the push, so only its use is tested.
    unfoldable pub push_segment : ℕ → Bytes → Planner → Planner
    unfolding close_zone
    push_segment start chunk p =
        let segment : SegmentRef = record {
          capsule_id = capsule;
          offset = p.cursor + start;
          len = length chunk;
          compressed_hash = hash_chunk chunk;
        } in
        let pushed = record p {
          current_zone = record p.current_zone {
            segments = p.current_zone.segments ++ segment ∷ [];
          };
          zone_usage = p.zone_usage + length chunk;
        } in
        if leb segment_size pushed.zone_usage then close_zone pushed else pushed

    -- The loop over one slice, by the chunks that it takes.
    unfoldable pub push_chunks : ℕ → List Bytes → Planner → Planner
    push_chunks start [] p = p
    push_chunks start (c ∷ cs) p = push_chunks (start + length c) cs (push_segment start c p)

    unfoldable pub push_slice : Bytes → Planner → Planner
    push_slice slice p =
        let pushed = push_chunks 0 (chunks (length slice) segment_size slice) p in
        record pushed { cursor = pushed.cursor + length slice }

    unfoldable pub push_slices : List Bytes → Planner → Planner
    push_slices [] p = p
    push_slices (s ∷ rest) p = push_slices rest (push_slice s p)

  unfoldable pub build_plan : Policy → List CapsuleId → List Bytes → ZonePlan
  unfolding last_zone
  build_plan policy capsules data_slices =
      let p =
        push_slices (capsule_id_for capsules) (default_segment_size policy.layout.strategy)
          data_slices new_planner in
      record { zones = last_zone p.current_zone.segments p; merkle_root = none }

  -- The hash of all slices in turn; without the feature `pq` both variants are the same hash.
  unfoldable pub compute_merkle_root : MerkleAlgo → List Bytes → ContentHash
  compute_merkle_root blake3 data_slices = hash_chunk (joined data_slices)
  compute_merkle_root sphincs_plus data_slices = hash_chunk (joined data_slices)

  unfoldable pub run_offload : List CapsuleId → List Bytes → LayoutOffload → ZonePlan
  run_offload capsules data_slices (cpu_fixed policy) = build_plan policy capsules data_slices
  run_offload capsules data_slices (cpu_entropy policy) = build_plan policy capsules data_slices
  run_offload capsules data_slices (cpu_quantum_ready policy algo) =
      record (build_plan policy capsules data_slices) {
        merkle_root = some (compute_merkle_root algo data_slices);
      }

  -- `LayoutEngine::new(policy)` and `synthesize`.
  unfoldable pub synthesize : Policy → List CapsuleId → List Bytes → Result ZonePlan
  unfolding run_offload
  synthesize policy capsules data_slices =
      map_ok (run_offload capsules data_slices) (compile policy)
