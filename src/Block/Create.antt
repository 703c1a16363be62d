-- ===== src/Block/Create.antt =====
-- A new volume reads as zeros; a deleted one is gone with its capsule.
use space.Prelude.{
  ℕ, zero, suc, ◌+◌, ◌%◌, ◌≤◌, ◌<◌, ◌≡◌, refl, ap, true, false, none, some, ok, [], ◌∷◌, lookup,
  insert, nat_eq, bytes_eq, ltb, leb, arith, eq_iff, lookup-insert, length, take, drop, replicate,
  length-replicate, Option-cases, inl, inr,
}
use space.Common.{Bytes, CapsuleId, Capsule, segment_size, u64_mod}
use space.Presets.{default_policy}
use space.Gc.{World}
use space.Pipeline.Services.{Services}
use space.Pipeline.Read.{read_capsule}
use space.Pipeline.Write.{chunks, write_capsule_with_policy}
use space.Refcounts.{IsCounted}
use space.Refcounts.Store.{Room}
use space.Content.{HoldsContent}
use space.Content.Prepare.{OpensSeals}
use space.Content.Write.{Acceptable}
use space.Content.Capsules.{written, write_capsule_roundtrip}
use space.Content.Range.{read_range_inside}
use space.Block.{
  VolumeName, BlockVolume, BlockView, volume, validate_volume_name, validate_sizes, refuse_existing,
  settle_volume, persist, create_volume_with_block_size, read,
}

abbrev pub zeros : ℕ → Bytes
zeros n = replicate n 0

take-replicate : (len size : ℕ) → len ≤ size → take len (zeros size) ≡ zeros len
take-replicate zero size h = refl
take-replicate (suc len) zero h = absurd (omega arith)
take-replicate (suc len) (suc size) h = ap (◌∷◌ 0) (take-replicate len size (omega arith))

take-drop-replicate :
    (len from size : ℕ) → from + len ≤ size → take len (drop from (zeros size)) ≡ zeros len
take-drop-replicate len zero size h = take-replicate len size (omega arith)
take-drop-replicate len (suc from) zero h = absurd (omega arith)
take-drop-replicate len (suc from) (suc size) h = take-drop-replicate len from size (omega arith)

module _ (s : Services) (seals : OpensSeals s)
    (injective : (c d : Bytes) → s.hash_content c ≡ s.hash_content d → c ≡ d) (now : ℕ)
    (id : CapsuleId) (name : VolumeName) (size block_size : ℕ) (v : BlockView)
    (valid : validate_volume_name name ≡ ok tt) (sizes : validate_sizes size block_size ≡ ok tt)
    (unused : lookup name v.volumes ≡ none) (small : size < u64_mod) (inv : IsCounted [] v.world)
    (holds : HoldsContent s v.world) (fresh : lookup id v.world.registry.capsules ≡ none)
    (room : Room
      (length (chunks (length (zeros size)) segment_size (zeros size)))
      (length (zeros size))
      v.world)
    (fine : Acceptable s default_policy
      (chunks (length (zeros size)) segment_size (zeros size))) where
  abbrev pub created : BlockVolume
  created = record {
    name = name;
    size = size;
    block_size = block_size;
    capsule_id = id;
    created_at = now;
    updated_at = now;
    version = 1;
  }

  abbrev pub with_volume : World → BlockView
  with_volume w =
      let volumes = insert name created v.volumes in
      record {
        world = w;
        volumes = volumes;
        saved = elim v.saved [ none ↦ none | some _ ↦ some volumes ];
      }

  create_lem :
      (w1 : World)
      → write_capsule_with_policy s now id (zeros size) default_policy v.world ≡ (ok id, w1)
      → create_volume_with_block_size s true now id name size block_size v
        ≡ (ok created, with_volume w1)
  unfolding create_volume_with_block_size refuse_existing settle_volume persist
  create_lem w1 wrote = elim (Option-cases v.saved) [
    | inl no_file ↦
        rw (valid, sizes, unused, wrote, unused, no_file)
          (ap
            (λ file. (
              ok created,
              record { world = w1; volumes = insert name created v.volumes; saved = file },
            ))
            no_file)
    | inr (volumes, file) ↦ rw (valid, sizes, unused, wrote, unused, file) refl
  ]

  -- Under what `write_capsule_roundtrip` asks of the new contents and the world, creating a volume
  -- under a valid, unused name and sizes that agree succeeds. Every range inside it reads as
  -- zeros, every capsule that was there reads as before, and counts and content store stay right.
  pub create_volume_reads_zeros :
      (w' : World) × (create_volume_with_block_size s true now id name size block_size v
        ≡ (ok created, with_volume w'))
      × ((from len : ℕ)
          → from + len ≤ size
          → read s name from len (with_volume w') ≡ (ok (zeros len), with_volume w'))
      × ((other : CapsuleId) (c : Capsule)
          → lookup other v.world.registry.capsules ≡ some c
          → (read_capsule s other w').0 ≡ (read_capsule s other v.world).0)
      × IsCounted [] w'
      × HoldsContent s w'
  unfolding read volume
  create_volume_reads_zeros =
      let (ids, w1, (wrote, reads, inv1, holds1, caps1, same1)) =
        write_capsule_roundtrip s seals injective now id (zeros size) default_policy v.world inv
          holds fresh room fine in
      let new = written now id (zeros size) default_policy ids in
      let full : length (zeros size) ≡ size = length-replicate size 0 in
      let mine : lookup id w1.registry.capsules ≡ some new = ground (
        arith,
        ap (lookup id) caps1,
        lookup-insert id id new v.world.registry.capsules,
        eq_iff id id,
      ) in
      let there : lookup name (with_volume w1).volumes ≡ some created =
        ground (arith, lookup-insert name name created v.volumes, eq_iff name name) in
      (
        w1,
        create_lem w1 wrote,
        λ from len inside.
            let m : (from + len) % u64_mod ≡ from + len = omega arith in
            let within : ltb size (from + len) ≡ false = ground arith in
            let covered : leb (from + len) (length (zeros size)) ≡ true = ground (arith, full) in
            let ranged =
              read_range_inside s id new (zeros size) w1 from len mine reads refl
                (omega (arith, full)) (omega arith) in
            rw (there, m, within, ranged, covered)
              (ap (λ b. (ok b, with_volume w1)) (take-drop-replicate len from size inside)),
        same1,
        inv1,
        holds1,
      )
