-- ===== src/Examples/Volumes.antt =====
-- A volume of two bytes, written and raced for.
use space.Prelude.{
  ℕ, ◌+◌, ◌≤◌, ◌≡◌, ◌≢◌, refl, none, some, ok, err, modified_concurrently, [], ◌∷◌, lookup, arith,
  eq_iff, nat_eq, bytes_eq, take, drop, length, false, true, insert,
}
use space.Common.{Bytes, Capsule, CapsuleId, segment_size, identity, is_enabled}
use space.Presets.{default_policy}
use space.Gc.{World}
use space.Compression.{
  ineffective, compress_segment, try_compress, attempt_compress, adjusted_level_lz4, accept,
  entropy_skip_reason, decompress_lz4,
}
use space.Pipeline.Read.{read_capsule, expand, or_raw}
use space.Pipeline.Write.{chunks, Prepared, prepare, after_compress, sealed}
use space.Pipeline.Release.{delete_capsule}
use space.Refcounts.{IsCounted}
use space.Refcounts.Store.{Room}
use space.Content.{HoldsContent}
use space.Content.Write.{Acceptable}
use space.Block.Create.{zeros, create_volume_reads_zeros}
use space.Block.{
  validate_volume_name, all_valid, valid_char, validate_sizes, create_volume_with_block_size,
  BlockVolume, BlockView, write, read, publish,
}
use space.Block.Overwrite.{write_overwrites, second_writer_refused}
use space.Examples.Capsules.{
  services, services-OpensSeals, capsule, two_capsules, two_capsules-IsCounted, decode_run,
  encode_run, codec,
}
use space.Examples.Recovery.{two_capsules-HoldsContent, found_6, reads_6}

abbrev vol : BlockVolume
vol = record {
  name = 97 ∷ [];
  size = 2;
  block_size = 1;
  capsule_id = 6;
  created_at = 0;
  updated_at = 0;
  version = 1;
}

abbrev view : BlockView
view = record { world = two_capsules; volumes = (97 ∷ [], vol) ∷ []; saved = some [] }

abbrev after_view : World → BlockView
after_view w =
    let volumes =
      insert (97 ∷ []) (record vol { capsule_id = 7; updated_at = 8; version = 2 }) view.volumes in
    record { world = w; volumes = volumes; saved = some volumes }

abbrev pub after : Bytes
after = 4 ∷ 9 ∷ []

abbrev pub prepared : Prepared
prepared = record {
  comp = record {
    original_size = 2;
    compressed_size = 2;
    compressed = false;
    reused_original = true;
    algorithm = identity;
    reason = some ineffective;
  };
  hash = after;
  final_data = after;
  meta = none;
}

pub prepare-after : prepare services default_policy after ≡ ok prepared
unfolding prepare after_compress sealed is_enabled compress_segment try_compress attempt_compress
    adjusted_level_lz4 accept entropy_skip_reason encode_run codec
prepare-after = refl

pub after-Acceptable : Acceptable services default_policy (chunks (length after) segment_size after)
unfolding expand or_raw chunks decode_run decompress_lz4 codec
after-Acceptable = ((prepared, prepare-after), refl, tt)

pub room : Room (length (chunks (length after) segment_size after)) (length after) two_capsules
unfolding lookup chunks
room = record { ids = omega arith; counts = λ j. ground (arith, eq_iff 1 j); bytes = omega arith }

pub fresh_7 : lookup 7 two_capsules.registry.capsules ≡ none
unfolding lookup
fresh_7 = refl

named : lookup (97 ∷ []) view.volumes ≡ some vol
unfolding lookup
named = refl

write_overwrites_example :
    (w' : World) × (write services true 8 7 (97 ∷ []) 1 (9 ∷ []) view ≡ (ok tt, after_view w'))
    × ((from len : ℕ)
        → from + len ≤ 2
        → read services (97 ∷ []) from len (after_view w')
          ≡ (ok (take len (drop from after)), after_view w'))
    × (lookup 6 w'.registry.capsules ≡ none)
    × ((other : CapsuleId) (c : Capsule)
        → other ≢ 6
        → lookup other two_capsules.registry.capsules ≡ some c
        → (read_capsule services other w').0 ≡ (read_capsule services other two_capsules).0)
    × IsCounted [] w'
    × HoldsContent services w'
write_overwrites_example =
    write_overwrites services services-OpensSeals (λ c d e. e) 8 7 (97 ∷ []) vol
      (capsule 6 (1 ∷ [])) (4 ∷ 4 ∷ []) view named found_6 reads_6 refl (omega arith)
      two_capsules-IsCounted two_capsules-HoldsContent fresh_7 9 [] 1 (omega arith) room
      after-Acceptable

second_writer_refused_example :
    let v1 = (publish true 8 (97 ∷ []) vol 7 view).1 in
    publish true 9 (97 ∷ []) vol 5 v1
    ≡ (err modified_concurrently, record v1 { world = (delete_capsule 5 v1.world).1 })
second_writer_refused_example =
    (second_writer_refused 8 9 (97 ∷ []) vol 7 5 view named (omega arith)).2

abbrev blank : Prepared
blank = record prepared { hash = zeros 2; final_data = zeros 2 }

prepare-blank : prepare services default_policy (zeros 2) ≡ ok blank
unfolding prepare after_compress sealed is_enabled compress_segment try_compress attempt_compress
    adjusted_level_lz4 accept entropy_skip_reason encode_run codec
prepare-blank = refl

blank-Acceptable :
    Acceptable services default_policy (chunks (length (zeros 2)) segment_size (zeros 2))
unfolding expand or_raw chunks decode_run decompress_lz4 codec
blank-Acceptable = ((blank, prepare-blank), refl, tt)

blank-Room :
    Room (length (chunks (length (zeros 2)) segment_size (zeros 2))) (length (zeros 2)) two_capsules
unfolding lookup chunks
blank-Room = record {
  ids = omega arith;
  counts = λ j. ground (arith, eq_iff 1 j);
  bytes = omega arith;
}

valid_b : validate_volume_name (98 ∷ []) ≡ ok tt
unfolding validate_volume_name all_valid valid_char
valid_b = refl

sizes_b : validate_sizes 2 1 ≡ ok tt
unfolding validate_sizes
sizes_b = refl

unused_b : lookup (98 ∷ []) view.volumes ≡ none
unfolding lookup
unused_b = refl

abbrev created_view : World → BlockView
created_view w =
    let mine = record vol { name = 98 ∷ []; capsule_id = 7; created_at = 8; updated_at = 8 } in
    let volumes = insert (98 ∷ []) mine view.volumes in
    record { world = w; volumes = volumes; saved = some volumes }

create_volume_reads_zeros_example :
    (w' : World) × (create_volume_with_block_size services true 8 7 (98 ∷ []) 2 1 view ≡ (
      ok (record vol { name = 98 ∷ []; capsule_id = 7; created_at = 8; updated_at = 8 }),
      created_view w',
    ))
    × ((from len : ℕ)
        → from + len ≤ 2
        → read services (98 ∷ []) from len (created_view w') ≡ (ok (zeros len), created_view w'))
    × ((other : CapsuleId) (c : Capsule)
        → lookup other two_capsules.registry.capsules ≡ some c
        → (read_capsule services other w').0 ≡ (read_capsule services other two_capsules).0)
    × IsCounted [] w'
    × HoldsContent services w'
create_volume_reads_zeros_example =
    create_volume_reads_zeros services services-OpensSeals (λ c d e. e) 8 7 (98 ∷ []) 2 1 view
      valid_b sizes_b unused_b (omega arith) two_capsules-IsCounted two_capsules-HoldsContent
      fresh_7 blank-Room blank-Acceptable
