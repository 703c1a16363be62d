-- ===== src/Pipeline/Release.antt =====
-- `delete_capsule` and `garbage_collect` of `WritePipeline`.
use space.Prelude.{ℕ, true, Exec, ◌>>=◌, ◌>>◌, pure, List, [], ◌∷◌, nat_beq, nat_eq, if◌then◌else◌}
use space.Common.{SegmentId, CapsuleId, Segment}
use space.Nvram.{fine, decrement_refcount, remove_segment}
use space.Registry.{delete_capsule as registry_delete}
use space.Gc.{World, on_registry, on_nvram, forget_content, sweep}

unfoldable pub discard : Segment → SegmentId → Exec World (Unit {0})
discard segment id =
    if nat_beq segment.ref_count 0
    then (do forget_content segment.content_hash id; on_nvram (remove_segment fine id); pure tt)
    else pure tt

unfoldable pub release : SegmentId → Exec World (Unit {0})
unfolding discard
release id = do segment ← on_nvram (decrement_refcount fine id); discard segment id

unfoldable pub release_all : List SegmentId → Exec World (Unit {0})
release_all [] = pure tt
release_all (id ∷ ids) = do release id; release_all ids

unfoldable pub delete_capsule : CapsuleId → Exec World (Unit {0})
delete_capsule id = do capsule ← on_registry (registry_delete true id); release_all capsule.segments

abbrev pub garbage_collect : Exec World ℕ
garbage_collect = sweep
