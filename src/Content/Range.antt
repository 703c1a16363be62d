-- ===== src/Content/Range.antt =====
-- `read_range`: which part of a capsule it returns.
use space.Prelude.{
  ◌+◌, ◌-◌, ◌%◌, ◌≤◌, ◌<◌, ◌≡◌, panicked, some, ok, err, beyond_capsule, lookup, nat_eq, leb, arith,
  if◌then◌else◌, length, take, drop, ℕ, false, ltb, Bool-cases, inl, inr,
}
use space.Common.{Bytes, CapsuleId, Capsule, u64_mod}
use space.Registry.{lookup_capsule}
use space.Gc.{World}
use space.Pipeline.Services.{Services}
use space.Pipeline.Read.{slice, read_capsule, read_range}

module _ (s : Services) (id : CapsuleId) (c : Capsule) (bytes : Bytes) (w : World) (offset len : ℕ)
    (there : lookup id w.registry.capsules ≡ some c) (whole : read_capsule s id w ≡ (ok bytes, w))
    (size : length bytes ≡ c.size) (small : c.size < u64_mod) where
  -- On a capsule that reads back as many bytes as it records, a range whose end does not overflow
  -- gives the bytes from `offset` on, `len` of them, if it ends inside the capsule, and is refused
  -- otherwise; the world stays.
  pub read_range_inside :
      offset + len < u64_mod
      → read_range s id offset len w ≡ (
        if leb (offset + len) c.size then ok (take len (drop offset bytes)) else err beyond_capsule,
        w,
      )
  unfolding read_range slice lookup_capsule
  read_range_inside fits =
      let m : (offset + len) % u64_mod ≡ offset + len = omega arith in
      rw (there, m)
        (elim (Bool-cases (ltb c.size (offset + len))) [
          | inl over ↦ rw over (ground arith)
          | inr inside ↦
              let n : offset + len - offset ≡ len = omega arith in
              rw (inside, whole, n) (ground (arith, inside, size))
        ])

  -- On a capsule that reads back as many bytes as it records, a range whose end overflows by no
  -- more than the size passes the check of the bounds, and then the slice panics.
  pub read_range_overflow :
      offset < u64_mod
      → len < u64_mod
      → u64_mod ≤ offset + len
      → offset + len - u64_mod ≤ c.size
      → read_range s id offset len w ≡ (err panicked, w)
  unfolding read_range slice lookup_capsule
  read_range_overflow o l over inside =
      let m : (offset + len) % u64_mod ≡ offset + len - u64_mod = omega arith in
      let passes : ltb c.size (offset + len - u64_mod) ≡ false = ground arith in
      rw (there, m, passes, whole) (ground arith)
