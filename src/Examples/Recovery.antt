-- ===== src/Examples/Recovery.antt =====
-- Worlds with wrong counts, and what deleting, sweeping, reconciling and reading ranges give.
use space.Prelude.{
  remove, ◌≡◌, ◌≢◌, refl, some, ok, err, capsule_not_found, [], ◌∷◌, lookup, arith, eq_iff, nat_eq,
  bytes_eq, panicked, ◌-◌, ◌^◌,
}
use space.Common.{Capsule, CapsuleId}
use space.Nvram.{new_segment, read, get_segment_metadata}
use space.Disk.{read_at}
use space.Registry.{lookup_capsule}
use space.Compression.{decompress_lz4}
use space.Gc.{World, sweep}
use space.Pipeline.Read.{
  read_capsule, read_range, read_segments, read_segment, decrypted, expand, or_raw,
}
use space.Pipeline.Release.{delete_capsule}
use space.Pipeline.Reconcile.{reconcile_refcounts}
use space.Refcounts.{IsCounted, refs}
use space.Refcounts.Trims.{Trims}
use space.Refcounts.Frame.{Sweeps, Reconciles}
use space.Refcounts.Sweep.{dead, IsSweepable, sweep-IsCounted}
use space.Refcounts.Recover.{IsLoadable, reconcile_refcounts-IsCounted}
use space.Content.{HoldsContent, plain}
use space.Content.Trims.{delete_capsule_keeps_others, reconcile_refcounts_keeps_contents}
use space.Content.Range.{read_range_inside, read_range_overflow}
use space.Examples.Capsules.{
  capsule, decode_run, codec, services, shared, two_capsules, two_capsules-IsCounted,
}

-- Two capsules refer to segment 1, three times; the log counts nine, and holds segment 2 that no
-- capsule lists.
abbrev miscounted : World
miscounted = record two_capsules {
  nvram = record two_capsules.nvram {
    segment_map =
        (1, record shared { ref_count = 9 })
        ∷ (2, record (new_segment 2 0 1) { ref_count = 4 })
        ∷ [];
  };
}

miscounted-IsLoadable : IsLoadable miscounted
unfolding refs lookup
miscounted-IsLoadable = record {
  layout = record {
    at_end = refl;
    distinct = (refl, (refl, tt));
    inside = λ j seg e. ground arith;
  };
  there = λ j h. (record shared { ref_count = 9 }, ground (arith, eq_iff 1 j));
  fresh = λ j h. ground (arith, eq_iff 1 j);
  small = λ j. ground (arith, eq_iff 1 j);
  named = λ j seg e. ground (arith, eq_iff 1 j, eq_iff 2 j);
  content = λ h j e.
      (record shared { ref_count = 9 }, ground arith, ground (arith, eq_iff (4 ∷ 4 ∷ []) h));
  capsules_distinct = (refl, (refl, tt));
  content_distinct = (refl, tt);
}

reconcile_refcounts-IsCounted_example :
    (w' : World) × (reconcile_refcounts miscounted ≡ (ok tt, w'))
    × IsCounted [] w'
    × Trims miscounted w'
    × Reconciles miscounted w'
reconcile_refcounts-IsCounted_example =
    reconcile_refcounts-IsCounted miscounted miscounted-IsLoadable

reconcile_refcounts_keeps_contents_example :
    (w' : World) × (reconcile_refcounts miscounted ≡ (ok tt, w'))
    × ((id : CapsuleId) (c : Capsule)
        → lookup id miscounted.registry.capsules ≡ some c
        → (read_capsule services id w').0 ≡ (read_capsule services id miscounted).0)
    × (HoldsContent services miscounted → HoldsContent services w')
reconcile_refcounts_keeps_contents_example =
    reconcile_refcounts_keeps_contents services miscounted miscounted-IsLoadable

-- One segment in use, and one that nobody refers to.
abbrev half_dead : World
half_dead = record two_capsules {
  nvram = record two_capsules.nvram {
    segment_map = (2, record (new_segment 2 0 1) { ref_count = 0 }) ∷ (1, shared) ∷ [];
  };
}

half_dead-IsSweepable : IsSweepable half_dead
unfolding refs lookup
half_dead-IsSweepable = record {
  layout = record {
    at_end = refl;
    distinct = (refl, (refl, tt));
    inside = λ j seg e. ground arith;
  };
  counted = λ j. ground (arith, eq_iff 1 j, eq_iff 2 j, eq_iff j 1);
  fresh = λ j h. ground (arith, eq_iff 1 j);
  named = λ j seg e. ground (arith, eq_iff 1 j, eq_iff 2 j);
  content = λ h j e. (shared, ground arith, ground (arith, eq_iff (4 ∷ 4 ∷ []) h));
  capsules_distinct = (refl, (refl, tt));
  content_distinct = (refl, tt);
}

sweep-IsCounted_example :
    (w' : World) × (sweep half_dead ≡ (ok 1, w'))
    × IsCounted [] w'
    × Trims half_dead w'
    × Sweeps half_dead w'
unfolding dead
sweep-IsCounted_example = sweep-IsCounted half_dead half_dead-IsSweepable

pub two_capsules-HoldsContent : HoldsContent services two_capsules
unfolding lookup plain decrypted read_at
two_capsules-HoldsContent = record {
  at = λ h id e.
      (4 ∷ 4 ∷ [], ground (arith, eq_iff (4 ∷ 4 ∷ []) h), ground (arith, eq_iff (4 ∷ 4 ∷ []) h));
}

found_5 : lookup 5 two_capsules.registry.capsules ≡ some (capsule 5 (1 ∷ 1 ∷ []))
unfolding lookup
found_5 = refl

pub found_6 : lookup 6 two_capsules.registry.capsules ≡ some (capsule 6 (1 ∷ []))
unfolding lookup
found_6 = refl

pub reads_6 : read_capsule services 6 two_capsules ≡ (ok (4 ∷ 4 ∷ []), two_capsules)
unfolding read_capsule lookup_capsule lookup read_segments read_segment read read_at
    get_segment_metadata decrypted expand or_raw decompress_lz4 decode_run codec
reads_6 = refl

delete_capsule_keeps_others_example :
    (w' : World) × (delete_capsule 5 two_capsules ≡ (ok tt, w'))
    × ((read_capsule services 5 w').0 ≡ err capsule_not_found)
    × ((other : CapsuleId) (d : Capsule)
        → other ≢ 5
        → lookup other two_capsules.registry.capsules ≡ some d
        → (read_capsule services other w').0 ≡ (read_capsule services other two_capsules).0)
    × IsCounted [] w'
    × HoldsContent services w'
    × (w'.registry.capsules ≡ remove 5 two_capsules.registry.capsules)
delete_capsule_keeps_others_example =
    delete_capsule_keeps_others services 5 (capsule 5 (1 ∷ 1 ∷ [])) two_capsules
      two_capsules-IsCounted two_capsules-HoldsContent found_5

read_range_inside_example : read_range services 6 1 1 two_capsules ≡ (ok (4 ∷ []), two_capsules)
read_range_inside_example =
    read_range_inside services 6 (capsule 6 (1 ∷ [])) (4 ∷ 4 ∷ []) two_capsules 1 1 found_6 reads_6
      refl (omega arith) (omega arith)

read_range_overflow_example :
    read_range services 6 (2 ^ 64 - 1) 2 two_capsules ≡ (err panicked, two_capsules)
read_range_overflow_example =
    read_range_overflow services 6 (capsule 6 (1 ∷ [])) (4 ∷ 4 ∷ []) two_capsules (2 ^ 64 - 1) 2
      found_6 reads_6 refl (omega arith) (omega arith) (omega arith) (omega arith) (omega arith)
