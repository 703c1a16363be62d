-- ===== src/S3/Objects.antt =====
-- An object reads back as it was put, and a bucket reaches into another whose name goes on after a
-- slash.
use space.Prelude.{
  ℕ, ◌≡◌, ◌≢◌, refl, none, some, ok, [], lookup, insert, nat_eq, bytes_eq, arith, eq_iff,
  lookup-insert, length,
}
use space.Common.{Bytes, CapsuleId, Capsule, segment_size}
use space.Presets.{default_policy}
use space.Gc.{World}
use space.Pipeline.Services.{Services}
use space.Pipeline.Read.{read_capsule}
use space.Pipeline.Write.{chunks}
use space.Refcounts.{IsCounted}
use space.Refcounts.Store.{Room}
use space.Content.{HoldsContent}
use space.Content.Prepare.{OpensSeals}
use space.Content.Write.{Acceptable}
use space.Content.Capsules.{write_capsule_roundtrip}
use space.Nfs.{Text}
use space.S3.{
  S3View, KeyMapping, full_key, put_object, get_object, head_object, detect_content_type,
}

get_object_lem :
    (s : Services) (bucket key : Text) (v : S3View) (m : KeyMapping) (bytes : Bytes)
    → lookup (full_key bucket key) v.key_map ≡ some m
    → read_capsule s m.capsule_id v.world ≡ (ok bytes, v.world)
    → get_object s bucket key v ≡ (ok bytes, v)
unfolding get_object head_object
get_object_lem s bucket key v m bytes there reads = rw (there, reads) refl

module _ (s : Services) (seals : OpensSeals s)
    (injective : (c d : Bytes) → s.hash_content c ≡ s.hash_content d → c ≡ d) (now created : ℕ)
    (id : CapsuleId) (bucket key : Text) (bytes : Bytes) (v : S3View) (inv : IsCounted [] v.world)
    (holds : HoldsContent s v.world) (fresh : lookup id v.world.registry.capsules ≡ none)
    (room : Room (length (chunks (length bytes) segment_size bytes)) (length bytes) v.world)
    (fine : Acceptable s default_policy (chunks (length bytes) segment_size bytes)) where
  abbrev pub mapping : KeyMapping
  mapping = record {
    key = full_key bucket key;
    capsule_id = id;
    size = length bytes;
    created_at = created;
    content_type = detect_content_type key;
  }

  abbrev pub with_object : World → S3View
  with_object w = record { world = w; key_map = insert (full_key bucket key) mapping v.key_map }

  -- Under what `write_capsule_roundtrip` asks of the contents and the world, putting an object
  -- succeeds. It then reads as the bytes put, and its head has their number and the type that
  -- its key tells. Bucket and key are only told apart by the joined name: every pair with the same
  -- joined name reads the same bytes, so an object of the bucket `bucket/a` is also the object
  -- `a/key` of the bucket `bucket`. Objects under other joined names, whose capsules exist, read
  -- as before, and counts and content store stay right.
  pub put_object_reads_back :
      (w' : World) × (put_object s now (ok created) id bucket key bytes v ≡ (ok id, with_object w'))
      × ((b k : Text)
          → full_key b k ≡ full_key bucket key
          → (get_object s b k (with_object w') ≡ (ok bytes, with_object w'))
            × (head_object b k (with_object w') ≡ (ok mapping, with_object w')))
      × ((b k : Text) (m : KeyMapping) (c : Capsule)
          → full_key b k ≢ full_key bucket key
          → lookup (full_key b k) v.key_map ≡ some m
          → lookup m.capsule_id v.world.registry.capsules ≡ some c
          → (get_object s b k (with_object w')).0 ≡ (get_object s b k v).0)
      × IsCounted [] w'
      × HoldsContent s w'
  unfolding put_object get_object head_object
  put_object_reads_back =
      let (ids, w1, (wrote, reads, inv1, holds1, caps1, same1)) =
        write_capsule_roundtrip s seals injective now id bytes default_policy v.world inv holds
          fresh room fine in
      let found : (name : Text)
          → name ≡ full_key bucket key
          → lookup name (with_object w1).key_map ≡ some mapping =
        λ name same. ground (
          arith,
          lookup-insert (full_key bucket key) name mapping v.key_map,
          eq_iff (full_key bucket key) name,
          same,
        ) in
      (
        w1,
        rw wrote refl,
        λ b k same. (
          get_object_lem s b k (with_object w1) mapping bytes (found (full_key b k) same) reads,
          rw (found (full_key b k) same) refl,
        ),
        λ b k m c apart there has.
            let still : lookup (full_key b k) (with_object w1).key_map ≡ some m = ground (
              arith,
              lookup-insert (full_key bucket key) (full_key b k) mapping v.key_map,
              eq_iff (full_key bucket key) (full_key b k),
              apart,
            ) in
            rw (still, there) (same1 m.capsule_id c has),
        inv1,
        holds1,
      )
