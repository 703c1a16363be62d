-- ===== src/Examples/Parts.antt =====
-- Layout, storage and the modular pipeline on small inputs.
use space.Prelude.{
  false, none, ◌≡◌, refl, true, none, some, ok, err, panicked, List, [], ◌∷◌, lookup, nat_eq,
  bytes_eq, replicate, pos, arith,
}
use space.Common.{
  identity, Bytes, Policy, Segment, EncryptionPolicy, uncompressed, lz4_level, fixed,
  default_segment_size,
}
use space.Compression.{decompress, decompress_lz4, compress_segment, reuse, ineffective}
use space.Nvram.{NvramLog, new_segment, fine, read}
use space.Content.Chunks.{joined}
use space.Pipeline.Write.{chunks}
use space.Layout.{
  ZonePlan, synthesize, compile, by_strategy, run_offload, build_plan, push_slices, push_slice,
  push_chunks, push_segment, close_zone, last_zone, capsule_id_for,
}
use space.Layout.Placing.{refs_of, Covers, Numbered}
use space.Layout.Cover.{Supported, synthesize_covers}
use space.Storage.{in_txn}
use space.Storage.Laws.{TxnCall, puts, describes, deletes, calls_then_commit, Committed}
use space.Storage.Memory.{Inner, in_memory_backend}
use space.Storage.Memory.Refines.{IsWhole, commit_refines, in_memory-refines}
use space.Storage.Persistent.{nvram_backend}
use space.Storage.Persistent.Offsets.{new_segment_overwrites}
use space.Modular.Catalog.{new_catalog, new_deduper}
use space.Modular.Encryptors.{noop_encryptor, new_summary}
use space.Modular.Write.{
  CompressionSummary, describe_segment, Parts, PipelineState, Noted, compress, summarize, plan_of,
  write_chunk, derive_if,
}
use space.Modular.Read.{decrypt_stored, decompress_stored, fetch_segment}
use space.Modular.Reading.{Holds}
use space.Modular.Storing.{IsTransparent, IsCoherent, Writable}
use space.Modular.RoundTrip.{WroteCapsule, write_capsule_reads_back}
use space.Modular.Zones.{AllWritable}
use space.Modular.Sharing.{raw_view_shared}
use space.Pipeline.Services.{no_stats}
use space.Examples.Capsules.{services, policy, codec, decode_run}

-- Chunks of two bytes, stored as they are.
abbrev small_policy : Policy
small_policy = record policy {
  compression = uncompressed;
  layout = record { strategy = fixed 2; ec_profile = (6, 2) };
}

synthesize_covers_example :
    (Supported (fixed 2)
      → (plan : ZonePlan) × (synthesize (λ b. b) small_policy (7 ∷ []) ((1 ∷ 2 ∷ 3 ∷ []) ∷ [])
          ≡ ok plan)
        × Covers (λ b. b) 2 (1 ∷ 2 ∷ 3 ∷ []) 0 (refs_of plan.zones) 3
        × Numbered 0 plan.zones)
    × (¬ Supported (fixed 2)
        → synthesize (λ b. b) small_policy (7 ∷ []) ((1 ∷ 2 ∷ 3 ∷ []) ∷ []) ≡ err panicked)
unfolding default_segment_size joined
synthesize_covers_example =
    synthesize_covers (λ b. b) small_policy (7 ∷ []) ((1 ∷ 2 ∷ 3 ∷ []) ∷ []) (omega arith)

abbrev segment : Segment
segment = new_segment 4 0 2

abbrev store : Inner
store = record { segments = (5, 9 ∷ []) ∷ []; metadata = (5, new_segment 5 0 1) ∷ [] }

store-IsWhole : IsWhole store
unfolding lookup
store-IsWhole = record { segments_distinct = (refl, tt); metadata_distinct = (refl, tt) }

abbrev calls : List TxnCall
calls = puts 4 (1 ∷ 2 ∷ []) ∷ describes 4 segment ∷ deletes 5 ∷ []

commit_refines_example :
    (s' : Inner) × IsWhole s'
    × Committed in_memory_backend
        (λ m j. lookup j m.segments)
        (λ m j. lookup j m.metadata)
        calls
        store
        s'
commit_refines_example = commit_refines calls store store-IsWhole

-- A log that keeps the two bytes of segment 5 at the start of its file.
abbrev log : NvramLog
log = record {
  file = 8 ∷ 9 ∷ [];
  segment_map = (5, new_segment 5 0 2) ∷ [];
  next_offset = 2;
  saved = [];
}

abbrev raw_summary : CompressionSummary
raw_summary = record {
  original_size = 2;
  output_size = 2;
  algorithm = identity;
  compressed = false;
  reused_input = true;
  reason = none;
}

new_segment_overwrites_example :
    (log' : NvramLog) × (in_txn
        (nvram_backend fine)
        (calls_then_commit (nvram_backend fine) (
          puts 4 (1 ∷ 2 ∷ [])
          ∷ describes 4 (describe_segment 4 (1 ∷ 2 ∷ []) raw_summary (7 ∷ []) new_summary false)
          ∷ []))
        log
      ≡ (ok tt, log'))
    × (read 5 log' ≡ (ok (1 ∷ 2 ∷ []), log'))
unfolding lookup
new_segment_overwrites_example =
    new_segment_overwrites 4 5 1 (2 ∷ []) raw_summary (7 ∷ []) new_summary false (new_segment 5 0 2)
      log (omega arith) refl refl (omega arith)

abbrev parts : Parts
parts = record {
  codec = services.codec;
  hash_bytes = λ b. b;
  encryptor = noop_encryptor;
  keyring = none;
}

parts-IsTransparent : IsTransparent in_memory_backend in_memory-refines parts
unfolding derive_if
parts-IsTransparent = record {
  opens = λ v p id. (v, new_summary, refl, λ other. refl);
  keyed = λ capsule id. refl;
}

abbrev start : PipelineState Inner
start = record {
  storage = record { segments = []; metadata = [] };
  catalog = new_catalog;
  deduper = new_deduper;
  stats = no_stats;
}

start-IsCoherent : IsCoherent in_memory_backend in_memory-refines parts (λ v. v) start
unfolding lookup in_memory-refines
start-IsCoherent = record {
  valid = record { segments_distinct = tt; metadata_distinct = tt };
  content = λ hash id e. absurd (ground arith);
  fresh = λ id m e. absurd (ground arith);
}

abbrev text : Bytes
text = 1 ∷ 2 ∷ 3 ∷ []

-- The two pieces of the text, 1 ∷ 2 and 3, as the layout engine plans them.
abbrev plan : ZonePlan
plan = record {
  zones =
      record {
        id = 0;
        iv_seed = 0;
        segments =
            record { capsule_id = 7; offset = 0; len = 2; compressed_hash = 1 ∷ 2 ∷ [] } ∷ [];
      }
      ∷ record {
        id = 1;
        iv_seed = 1;
        segments = record { capsule_id = 7; offset = 2; len = 1; compressed_hash = 3 ∷ [] } ∷ [];
      }
      ∷ [];
  merkle_root = none;
}

text-planned : plan_of in_memory_backend parts 7 small_policy text ≡ ok plan
unfolding plan_of synthesize compile by_strategy run_offload build_plan push_slices push_slice
    push_chunks push_segment close_zone last_zone capsule_id_for chunks default_segment_size
text-planned = refl

raw-Writable :
    (c : Bytes) → Writable in_memory_backend in_memory-refines parts (λ v. v) small_policy c
unfolding compress compress_segment
raw-Writable c = record {
  view = c;
  summary = summarize (reuse c (some ineffective));
  compressed = refl;
  means = refl;
  decodes = refl;
}

text-AllWritable :
    AllWritable in_memory_backend in_memory-refines parts
      (λ v. v)
      small_policy
      text
      (refs_of plan.zones)
unfolding refs_of
text-AllWritable =
    (omega arith, raw-Writable (1 ∷ 2 ∷ []), (omega arith, raw-Writable (3 ∷ []), tt))

write_capsule_reads_back_example :
    (q : PipelineState Inner) × WroteCapsule in_memory_backend in_memory-refines parts
      (λ v. v)
      0
      7
      text
      small_policy
      start
      q
unfolding default_segment_size refs_of
write_capsule_reads_back_example =
    write_capsule_reads_back in_memory_backend in_memory-refines parts parts-IsTransparent (λ v. v)
      (λ x y e. e) 0 7 text small_policy plan start start-IsCoherent (omega arith) tt text-planned
      text-AllWritable (omega arith)

-- Segment 0 keeps 255, 3 and 97 as the compressed form of three times 97.
abbrev packed : Bytes
packed = 255 ∷ 3 ∷ 97 ∷ []

abbrev packed_segment : Segment
packed_segment = record (new_segment 0 0 3) {
  compressed = true;
  compression_algo = lz4_level (pos 1);
  content_hash = some packed;
}

abbrev shared : PipelineState Inner
shared = record start {
  storage = record { segments = (0, packed) ∷ []; metadata = (0, packed_segment) ∷ [] };
  catalog = record { next_segment = 1; capsules = []; content = (packed, 0) ∷ [] };
}

shared-Holds : Holds in_memory_backend in_memory-refines parts shared.storage 0 (replicate 3 97)
unfolding lookup in_memory-refines decrypt_stored decompress_stored decompress decompress_lz4 codec
    decode_run
shared-Holds = record {
  segment = packed_segment;
  raw = packed;
  described = refl;
  stored = refl;
  expands = λ other. refl;
}

shared-IsValid : in_memory-refines.IsValid shared.storage
unfolding in_memory-refines lookup
shared-IsValid = record { segments_distinct = (refl, tt); metadata_distinct = (refl, tt) }

raw_view_shared_example :
    (q : PipelineState Inner) × (noted : Noted) × (write_chunk in_memory_backend parts 7
        small_policy packed shared
      ≡ (ok noted, q))
    × (noted.id ≡ 0)
    × ((other : EncryptionPolicy)
        → fetch_segment parts in_memory_backend other noted.id q ≡ (ok (replicate 3 97), q))
unfolding lookup
raw_view_shared_example =
    raw_view_shared in_memory_backend in_memory-refines parts 7 small_policy 0 packed
      (replicate 3 97) shared shared-IsValid refl refl shared-Holds
