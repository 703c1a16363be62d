-- ===== src/Examples/Capsules.antt =====
-- A codec, services and worlds, and whole capsules written and deleted on them.
use space.Prelude.{
  eq_iff, remove, capsule_not_found, ◌≤◌, err, suc, ◌≡◌, refl, true, false, Option, none, some, ok,
  List, [], ◌∷◌, lookup, arith, length, nat_eq, bytes_eq, replicate, pos, ◌⊎◌, if◌then◌else◌,
  nat_beq,
}
use space.Common.{
  default_layout, Bytes, SegmentId, CapsuleId, Policy, Capsule, Segment, lz4, xts_aes256, classical,
  lz4_level, segment_size, is_enabled,
}
use space.Compression.{
  try_compress, attempt_compress, adjusted_level_lz4, accept, verify_integrity, check_equal,
  entropy_skip_reason, Codec, CompressionResult, compress_segment, decompress, constant_time_equal,
  decompress_lz4,
}
use space.Compression.Integrity.{decompress-compress_segment, compressed_size-eq-input}
use space.Nvram.{open_log, new_segment}
use space.Registry.{RegistryState, open_registry}
use space.Gc.{World}
use space.Pipeline.Services.{Services}
use space.Pipeline.Read.{expand, or_raw}
use space.Pipeline.Write.{chunks, Prepared, prepare, after_compress, sealed, after_seal}
use space.Refcounts.{IsCounted, refs}
use space.Refcounts.Trims.{Trims}
use space.Refcounts.Delete.{delete_capsule-IsCounted}
use space.Refcounts.Store.{Room}
use space.Pipeline.Release.{delete_capsule}
use space.Content.{HoldsContent}
use space.Content.Prepare.{OpensSeals}
use space.Content.Write.{Acceptable}
use space.Content.Capsules.{RoundTrip, write_capsule_roundtrip}

-- Run-length coding of texts that repeat one byte, marked by 255.
unfoldable pub encode_run : Bytes → Option Bytes
encode_run [] = none
encode_run (b ∷ bs) = some (255 ∷ suc (length bs) ∷ b ∷ [])

unfoldable pub decode_run : Bytes → Option Bytes
decode_run [] = none
decode_run (m ∷ []) = none
decode_run (m ∷ n ∷ []) = none
decode_run (m ∷ n ∷ b ∷ []) = if nat_beq m 255 then some (replicate n b) else none
decode_run (m ∷ n ∷ b ∷ c ∷ rest) = none

unfoldable pub codec : Codec
unfolding encode_run decode_run
codec = record {
  encode_lz4 = λ l bytes. encode_run bytes;
  decode_lz4 = decode_run;
  encode_zstd = λ l bytes. none;
  decode_zstd = λ bytes. none;
  high_entropy = λ bytes. false;
}

-- A cipher that marks what it has sealed by its key version, and a hash without collisions.
abbrev pub services : Services
services = record {
  codec = codec;
  hash_content = λ bytes. bytes;
  has_keys = true;
  seal = λ h bytes. ok (
    bytes,
    record {
      encryption_version = some 1;
      key_version = some 1;
      tweak_nonce = some h;
      integrity_tag = some [];
      ciphertext_len = some (length bytes);
    },
  );
  unseal = λ cipher meta. ok cipher;
}

pub services-OpensSeals : OpensSeals services
services-OpensSeals = record {
  opens = λ h b cipher meta small e. (1, ground arith, ground arith, ground arith);
}

abbrev pub policy : Policy
policy = record {
  erasure_profile = none;
  layout = default_layout;
  compression = lz4 (pos 1);
  dedupe = true;
  compact_interval_secs = none;
  encryption = xts_aes256 none;
  crypto_profile = classical;
}

abbrev pub bytes : Bytes
bytes = 9 ∷ 9 ∷ 9 ∷ 9 ∷ 9 ∷ []

abbrev empty : World
unfolding open_log open_registry
empty = record { registry = open_registry none; nvram = open_log [] [] }

abbrev pub result : CompressionResult
result = record {
  original_size = 5;
  compressed_size = 5;
  compressed = true;
  reused_original = false;
  algorithm = lz4_level (pos 1);
  reason = none;
}

pub compressed : compress_segment codec bytes policy.compression ≡ ok (255 ∷ 5 ∷ 9 ∷ [], result)
unfolding compress_segment try_compress attempt_compress adjusted_level_lz4 accept verify_integrity
    check_equal constant_time_equal decompress_lz4 entropy_skip_reason encode_run decode_run codec
compressed = refl

abbrev prepared : Prepared
prepared = record {
  comp = result;
  hash = 255 ∷ 5 ∷ 9 ∷ [];
  final_data = 255 ∷ 5 ∷ 9 ∷ [];
  meta = some (record {
    encryption_version = some 1;
    key_version = some 1;
    tweak_nonce = some (255 ∷ 5 ∷ 9 ∷ []);
    integrity_tag = some [];
    ciphertext_len = some 3;
  });
}

prepare-bytes : prepare services policy bytes ≡ ok prepared
unfolding prepare after_compress sealed after_seal is_enabled
prepare-bytes = rw compressed refl

empty-IsCounted : IsCounted [] empty
unfolding empty refs lookup
empty-IsCounted = record {
  layout = record { at_end = refl; distinct = tt; inside = λ j seg e. ground arith };
  counted = λ j. refl;
  alive = λ j seg e. ground arith;
  fresh = λ j seg e. ground arith;
  named = λ j seg e. ground arith;
  content = λ h j e. ground arith;
  capsules_distinct = tt;
  content_distinct = tt;
}

empty-HoldsContent : HoldsContent services empty
unfolding empty lookup
empty-HoldsContent = record { at = λ h id e. ground arith }

bytes-Acceptable : Acceptable services policy (chunks 5 segment_size bytes)
unfolding expand or_raw chunks decode_run decompress_lz4 codec
bytes-Acceptable = ((prepared, prepare-bytes), refl, tt)

empty-Room : Room (length (chunks 5 segment_size bytes)) 5 empty
unfolding empty lookup chunks
empty-Room = record { ids = omega arith; counts = λ j. omega arith; bytes = omega arith }

empty_fresh : lookup 1 empty.registry.capsules ≡ none
unfolding empty lookup
empty_fresh = refl

write_capsule_roundtrip_example :
    (ids : List SegmentId) × (w' : World) × RoundTrip services services-OpensSeals
      (λ c d e. e)
      7
      1
      bytes
      policy
      empty
      empty-IsCounted
      empty-HoldsContent
      empty_fresh
      empty-Room
      bytes-Acceptable
      ids
      w'
write_capsule_roundtrip_example =
    write_capsule_roundtrip services services-OpensSeals (λ c d e. e) 7 1 bytes policy empty
      empty-IsCounted empty-HoldsContent empty_fresh empty-Room bytes-Acceptable

-- Two capsules that share one segment.
abbrev pub shared : Segment
shared = record (new_segment 1 0 2) { ref_count = 3; content_hash = some (4 ∷ 4 ∷ []) }

abbrev pub capsule : CapsuleId → List SegmentId → Capsule
capsule id segments = record {
  id = id;
  size = 2;
  segments = segments;
  created_at = 0;
  policy = policy;
  deduped_bytes = 0;
}

abbrev pub two_capsules : World
two_capsules = record {
  registry = record { state = state; saved = state };
  nvram = record {
    file = 4 ∷ 4 ∷ [];
    next_offset = 2;
    segment_map = (1, shared) ∷ [];
    saved = (1, shared) ∷ [];
  };
}
  where
    state : RegistryState
    state = record {
      capsules = (5, capsule 5 (1 ∷ 1 ∷ [])) ∷ (6, capsule 6 (1 ∷ [])) ∷ [];
      content_store = (4 ∷ 4 ∷ [], 1) ∷ [];
      next_segment_id = 2;
    }

pub two_capsules-IsCounted : IsCounted [] two_capsules
unfolding refs lookup
two_capsules-IsCounted = record {
  layout = record { at_end = refl; distinct = (refl, tt); inside = λ j seg e. ground arith };
  counted = λ j. ground (arith, eq_iff 1 j, eq_iff j 1);
  alive = λ j seg e. ground arith;
  fresh = λ j seg e. ground (arith, eq_iff 1 j);
  named = λ j seg e. ground (arith, eq_iff 1 j);
  content = λ h j e. (shared, ground arith, ground (arith, eq_iff (4 ∷ 4 ∷ []) h));
  capsules_distinct = (refl, (refl, tt));
  content_distinct = (refl, tt);
}

delete_capsule-IsCounted_example :
    ((lookup 5 two_capsules.registry.capsules ≡ none)
      × (delete_capsule 5 two_capsules ≡ (err capsule_not_found, two_capsules)))
    ⊎ ((w' : World) × (delete_capsule 5 two_capsules ≡ (ok tt, w'))
        × IsCounted [] w'
        × (w'.registry.capsules ≡ remove 5 two_capsules.registry.capsules)
        × Trims two_capsules w')
delete_capsule-IsCounted_example = delete_capsule-IsCounted 5 two_capsules two_capsules-IsCounted

decompress-compress_segment_example :
    (decompress codec (255 ∷ 5 ∷ 9 ∷ []) (lz4_level (pos 1)) ≡ ok bytes) × (3 ≤ 5)
decompress-compress_segment_example =
    decompress-compress_segment codec bytes policy.compression (255 ∷ 5 ∷ 9 ∷ []) result compressed

compressed_size-eq-input_example : result.compressed_size ≡ 5
compressed_size-eq-input_example =
    compressed_size-eq-input codec bytes policy.compression (255 ∷ 5 ∷ 9 ∷ []) result compressed
