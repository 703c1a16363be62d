-- ===== src/Compression/Integrity.antt =====
-- What `compress_segment` promises about its output, whatever the codecs do.
use space.Prelude.{
  ℤ, ◌<◌, ◌≤◌, ◌≡◌, refl, true, false, Option, Result, ok, err, [], ◌∷◌, arith, length, ◌⊎◌, inl,
  inr,
}
use space.Common.{Bytes, CompressionPolicy, uncompressed, lz4, zstd, identity}
use space.Compression.{
  Codec, CompressionResult, SkipReason, constant_time_equal, check_equal, decompress_lz4,
  decompress_zstd, attempt_compress, verify_integrity, accept, try_compress, compress_segment,
  decompress, entropy_skip_reason,
}

constant_time_equal_sound : (xs ys : Bytes) → constant_time_equal xs ys ≡ true → xs ≡ ys
unfolding constant_time_equal
constant_time_equal_sound [] [] h = refl
constant_time_equal_sound [] (y ∷ ys) h = cc
constant_time_equal_sound (x ∷ xs) [] h = cc
constant_time_equal_sound (x ∷ xs) (y ∷ ys) h = ground (arith, constant_time_equal_sound xs ys)

module _ (codec : Codec) where
  -- What is handed on is the input itself, or something shorter that decodes to the input.
  abbrev pub Recovers : CompressionPolicy → Bytes → Bytes × CompressionResult → Type 0
  Recovers policy bytes (out, result) =
      ((result.compressed ≡ false) × (result.algorithm ≡ identity) × (out ≡ bytes))
      ⊎ ((result.compressed ≡ true)
          × (length out < length bytes)
          × (decompress codec out result.algorithm ≡ ok bytes)
          × (verify_integrity codec policy out bytes ≡ ok tt))

  check_equal-ok :
      (original : Bytes) (r : Result Bytes) → check_equal codec original r ≡ ok tt → r ≡ ok original
  unfolding check_equal
  check_equal-ok original (err e) h = cc
  check_equal-ok original (ok bytes) h = ground (arith, constant_time_equal_sound bytes original)

  pub verify_integrity_lz4 :
      (l : ℤ) (out bytes : Bytes)
      → verify_integrity codec (lz4 l) out bytes ≡ ok tt
      → decompress_lz4 codec out ≡ ok bytes
  unfolding verify_integrity
  verify_integrity_lz4 l out bytes h = check_equal-ok bytes (decompress_lz4 codec out) h

  pub verify_integrity_zstd :
      (l : ℤ) (out bytes : Bytes)
      → verify_integrity codec (zstd l) out bytes ≡ ok tt
      → decompress_zstd codec out ≡ ok bytes
  unfolding verify_integrity
  verify_integrity_zstd l out bytes h = check_equal-ok bytes (decompress_zstd codec out) h

  try_compress-Recovers :
      (bytes : Bytes) (policy : CompressionPolicy) (reason : Option SkipReason)
      (p : Bytes × CompressionResult)
      → try_compress codec bytes policy reason ≡ ok p
      → Recovers policy bytes p
  unfolding try_compress accept attempt_compress decompress
  try_compress-Recovers bytes uncompressed reason p h = ground arith
  try_compress-Recovers bytes (lz4 l) reason (out, result) h =
      ground (arith, check_equal-ok bytes (decompress_lz4 codec out))
  try_compress-Recovers bytes (zstd l) reason (out, result) h =
      ground (arith, check_equal-ok bytes (decompress_zstd codec out))

  pub compress_segment-Recovers :
      (bytes : Bytes) (policy : CompressionPolicy) (p : Bytes × CompressionResult)
      → compress_segment codec bytes policy ≡ ok p
      → Recovers policy bytes p
  unfolding compress_segment
  compress_segment-Recovers bytes uncompressed (out, result) h = ground arith
  compress_segment-Recovers bytes (lz4 l) p h =
      try_compress-Recovers bytes (lz4 l) (entropy_skip_reason codec bytes) p h
  compress_segment-Recovers bytes (zstd l) p h =
      try_compress-Recovers bytes (zstd l) (entropy_skip_reason codec bytes) p h

  -- Whatever the codecs do, a segment that `compress_segment` accepts is never longer than the
  -- input, and `decompress` under the recorded algorithm gives the input back.
  pub decompress-compress_segment :
      (bytes : Bytes) (policy : CompressionPolicy) (out : Bytes) (result : CompressionResult)
      → compress_segment codec bytes policy ≡ ok (out, result)
      → (decompress codec out result.algorithm ≡ ok bytes) × (length out ≤ length bytes)
  unfolding decompress
  decompress-compress_segment bytes policy out result h =
      elim (compress_segment-Recovers bytes policy (out, result) h) [
        | inl same ↦ (ground arith, ground arith)
        | inr shorter ↦ (shorter.2, ground arith)
      ]

  -- The size reported as compressed is the size of the input on every path, compressed or not.
  pub compressed_size-eq-input :
      (bytes : Bytes) (policy : CompressionPolicy) (out : Bytes) (result : CompressionResult)
      → compress_segment codec bytes policy ≡ ok (out, result)
      → result.compressed_size ≡ length bytes
  unfolding compress_segment try_compress accept attempt_compress
  compressed_size-eq-input bytes uncompressed out result h = ground arith
  compressed_size-eq-input bytes (lz4 l) out result h = ground arith
  compressed_size-eq-input bytes (zstd l) out result h = ground arith
