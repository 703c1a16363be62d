-- ===== src/Gc.antt =====
-- crates/capsule-registry/src/gc.rs: the sweep over the log's segments, on the pair of the registry
-- and the log that `WritePipeline` and `GarbageCollector` hold. Writes to the metadata files succeed.
use space.Prelude.{
  ℕ, ◌+◌, Bool, true, Option, none, some, vanished, Exec, ◌>>=◌, ◌>>◌, pure, raise, gets, List, [],
  ◌∷◌, nat_beq, if◌then◌else◌,
}
use space.Common.{SegmentId, ContentHash, Segment}
use space.Nvram.{NvramLog, fine, list_segments, remove_segment}
use space.Registry.{CapsuleRegistry, deregister_content}

pub record World : Type 0 where
  pub registry : CapsuleRegistry
  pub nvram : NvramLog

abbrev pub on_registry {ℓ} : {A : Type ℓ} → Exec CapsuleRegistry A → Exec World A
on_registry m w = let (result, r) = m w.registry in (result, record w { registry = r })

abbrev pub on_nvram {ℓ} : {A : Type ℓ} → Exec NvramLog A → Exec World A
on_nvram m w = let (result, log) = m w.nvram in (result, record w { nvram = log })

unfoldable pub forget_content : Option ContentHash → SegmentId → Exec World Bool
forget_content none id = pure true
forget_content (some hash) id = on_registry (deregister_content true hash id)

expect_removed : Option Segment → Exec World (Unit {0})
expect_removed none = raise vanished
expect_removed (some segment) = pure tt

unfoldable pub reclaim_segment : Segment → Exec World (Unit {0})
unfolding forget_content expect_removed
reclaim_segment segment = do
  forget_content segment.content_hash segment.id
  removed ← on_nvram (remove_segment fine segment.id)
  expect_removed removed

unfoldable pub sweep_list : List Segment → Exec World ℕ
unfolding reclaim_segment
sweep_list [] = pure 0
sweep_list (segment ∷ rest) =
    let others = sweep_list rest in
    if nat_beq segment.ref_count 0
    then (do reclaim_segment segment; n ← others; pure (n + 1))
    else others

unfoldable pub sweep : Exec World ℕ
unfolding sweep_list
sweep = do segments ← gets (λ w. list_segments w.nvram); sweep_list segments
