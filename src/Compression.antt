-- ===== src/Compression.antt =====
-- crates/compression/src/lib.rs. The LZ4 and Zstd codecs and the `f32` entropy estimate are not
-- part of the repository or not numbers that the kernel has: they are the parameter `Codec`.
pub mod Integrity
use space.Prelude.{
  ℕ, ◌<◌, ◌≡◌, refl, Bool, true, false, Option, none, some, Error, codec_failed, integrity_failed,
  Result, ok, err, List, arith, leb, ltb, Eq, ◌==◌, if◌then◌else◌, length, take, ℤ, pos, negsuc,
  clamp, ◌⊎◌, inl, inr, ◌&&◌, nat_beq, or_err, map_ok, [], ◌∷◌,
}
use space.Common.{
  Bytes, CompressionPolicy, uncompressed, lz4, zstd, Algorithm, no_algorithm, identity, lz4_level,
  zstd_level,
}

-- The crates `lz4` and `zstd`, each at a level, and the test `entropy >= 7.5` on a sample.
pub record Codec : Type 0 where
  pub encode_lz4 : ℤ → Bytes → Option Bytes
  pub decode_lz4 : Bytes → Option Bytes
  pub encode_zstd : ℤ → Bytes → Option Bytes
  pub decode_zstd : Bytes → Option Bytes
  pub high_entropy : Bytes → Bool

pub data SkipReason : Type 0 where
  entropy ineffective : SkipReason

pub record CompressionResult : Type 0 where
  pub original_size : ℕ
  pub compressed_size : ℕ
  pub compressed : Bool
  pub reused_original : Bool
  pub algorithm : Algorithm
  pub reason : Option SkipReason

-- The original slice goes on; `reason` says why.
abbrev pub reuse : Bytes → Option SkipReason → CompressionResult
reuse bytes reason = record {
  original_size = length bytes;
  compressed_size = length bytes;
  compressed = false;
  reused_original = true;
  algorithm = identity;
  reason = reason;
}

abbrev encoded : Bytes → Algorithm → CompressionResult
encoded bytes algorithm = record {
  original_size = length bytes;
  compressed_size = length bytes;
  compressed = true;
  reused_original = false;
  algorithm = algorithm;
  reason = none;
}

unfoldable pub constant_time_equal : Bytes → Bytes → Bool
constant_time_equal [] [] = true
constant_time_equal [] (b ∷ bs) = false
constant_time_equal (a ∷ as') [] = false
constant_time_equal (a ∷ as') (b ∷ bs) = nat_beq a b && constant_time_equal as' bs

unfoldable pub adjusted_level_lz4 : ℤ → ℤ
adjusted_level_lz4 level = clamp (pos 1) (pos 16) level

unfoldable pub adjusted_level_zstd : ℤ → ℤ
adjusted_level_zstd level = clamp (negsuc 4) (pos 22) level

module _ (codec : Codec) where
  unfoldable pub decompress_lz4 : Bytes → Result Bytes
  decompress_lz4 bytes = or_err codec_failed (codec.decode_lz4 bytes)

  unfoldable pub decompress_zstd : Bytes → Result Bytes
  decompress_zstd bytes = or_err codec_failed (codec.decode_zstd bytes)

  unfoldable pub entropy_skip_reason : Bytes → Option SkipReason
  entropy_skip_reason bytes =
      if ltb (length bytes) 1024
      then none
      else if codec.high_entropy (take 1024 bytes)
      then some entropy
      else none

  unfoldable pub attempt_compress : Bytes → CompressionPolicy → Result (Bytes × CompressionResult)
  unfolding adjusted_level_lz4 adjusted_level_zstd
  attempt_compress bytes uncompressed = ok (bytes, reuse bytes none)
  attempt_compress bytes (lz4 level) =
      let l = adjusted_level_lz4 level in
      map_ok (λ out. (out, encoded bytes (lz4_level l)))
        (or_err codec_failed (codec.encode_lz4 l bytes))
  attempt_compress bytes (zstd level) =
      let l = adjusted_level_zstd level in
      map_ok (λ out. (out, encoded bytes (zstd_level l)))
        (or_err codec_failed (codec.encode_zstd l bytes))

  unfoldable pub check_equal : Bytes → Result Bytes → Result (Unit {0})
  unfolding constant_time_equal
  check_equal original (err e) = err e
  check_equal original (ok bytes) =
      if constant_time_equal bytes original then ok tt else err integrity_failed

  unfoldable pub verify_integrity : CompressionPolicy → Bytes → Bytes → Result (Unit {0})
  unfolding check_equal decompress_lz4 decompress_zstd
  verify_integrity uncompressed out original = ok tt
  verify_integrity (lz4 l) out original = check_equal original (decompress_lz4 out)
  verify_integrity (zstd l) out original = check_equal original (decompress_zstd out)

  unfoldable pub accept :
      CompressionPolicy
      → Bytes
      → Result (Bytes × CompressionResult)
      → Result (Bytes × CompressionResult)
  unfolding verify_integrity
  accept policy bytes (err e) = err e
  accept policy bytes (ok (out, result)) =
      if leb (length bytes) (length out)
      then ok (
        bytes,
        record result {
          compressed = false;
          compressed_size = length bytes;
          reused_original = true;
          algorithm = identity;
          reason = some ineffective;
        },
      )
      else map_ok (λ _. (out, result)) (verify_integrity policy out bytes)

  unfoldable pub try_compress :
      Bytes → CompressionPolicy → Option SkipReason → Result (Bytes × CompressionResult)
  unfolding accept attempt_compress
  try_compress bytes policy (some reason) = ok (bytes, reuse bytes (some reason))
  try_compress bytes policy none = accept policy bytes (attempt_compress bytes policy)

  -- `adaptive_compress`, which `compress_segment` calls.
  unfoldable pub compress_segment : Bytes → CompressionPolicy → Result (Bytes × CompressionResult)
  unfolding try_compress entropy_skip_reason
  compress_segment bytes uncompressed = ok (bytes, reuse bytes (some ineffective))
  compress_segment bytes (lz4 l) = try_compress bytes (lz4 l) (entropy_skip_reason bytes)
  compress_segment bytes (zstd l) = try_compress bytes (zstd l) (entropy_skip_reason bytes)

  -- `Compressor::decompress`; the text "none" names no codec.
  unfoldable pub decompress : Bytes → Algorithm → Result Bytes
  unfolding decompress_lz4 decompress_zstd
  decompress bytes no_algorithm = err codec_failed
  decompress bytes identity = ok bytes
  decompress bytes (lz4_level l) = decompress_lz4 bytes
  decompress bytes (zstd_level l) = decompress_zstd bytes
