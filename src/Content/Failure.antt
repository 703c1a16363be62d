-- ===== src/Content/Failure.antt =====
-- A write that fails at a chunk leaves references behind; the next start gives them back.
use space.Prelude.{◌≡◌, Error, err, List, ◌++◌, nat_eq, length}
use space.Common.{Bytes, SegmentId, Policy}
use space.Gc.{World}
use space.Pipeline.Services.{Services}
use space.Pipeline.Write.{prepare}
use space.Refcounts.{IsCounted}
use space.Content.{Keeps, HoldsContent}
use space.Content.Prepare.{OpensSeals}

module _ (s : Services) (seals : OpensSeals s) (policy : Policy)
    (injective : (c d : Bytes) → s.hash_content c ≡ s.hash_content d → c ≡ d) (bad : Bytes)
    (post : List Bytes) (e : Error) (refused : prepare s policy bad ≡ err e) where
  -- What the chunks before the refused one leave.
  record Left (pre : List Bytes) (held ids : List SegmentId) (w w' : World) : Type 0 where
    counted : IsCounted (ids ++ held) w'
    holds : HoldsContent s w'
    keeps : Keeps s w w'
    capsules : w'.registry.capsules ≡ w.registry.capsules
    one_each : length ids ≡ length pre
