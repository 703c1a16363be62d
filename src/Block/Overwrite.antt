-- ===== src/Block/Overwrite.antt =====
-- A write to a volume changes the bytes it names and nothing else.
use space.Prelude.{
  ℕ, ◌+◌, ◌%◌, ◌≤◌, ◌<◌, ◌≡◌, ◌≢◌, refl, sym, ap, ◌∙◌, true, false, none, some, ok, err,
  modified_concurrently, [], ◌∷◌, ◌++◌, lookup, insert, nat_eq, bytes_eq, nat_beq, ltb, leb, arith,
  eq_iff, lookup-insert, lookup-remove, length, take, drop, length-append, length-take, length-drop,
  Option-cases, inl, inr,
}
use space.Common.{Bytes, CapsuleId, Capsule, segment_size, u64_mod}
use space.Presets.{default_policy}
use space.Gc.{World}
use space.Pipeline.Services.{Services}
use space.Pipeline.Read.{read_capsule}
use space.Pipeline.Write.{chunks, write_capsule_with_policy}
use space.Pipeline.Release.{delete_capsule}
use space.Refcounts.{IsCounted}
use space.Refcounts.Store.{Room}
use space.Content.{HoldsContent}
use space.Content.Prepare.{OpensSeals}
use space.Content.Write.{Acceptable}
use space.Content.Capsules.{read_capsule-gather, written, write_capsule_roundtrip}
use space.Content.Range.{read_range_inside}
use space.Content.Trims.{delete_capsule_keeps_others}
use space.Block.{
  VolumeName, BlockVolume, BlockView, volume, claim, copy_into, publish, persist, rewrite_capsule,
  write, read, saturating_succ,
}

abbrev pub patched : Bytes → ℕ → Bytes → Bytes
patched buffer start bytes = take start buffer ++ bytes ++ drop (start + length bytes) buffer

pub length-patched :
    (buffer bytes : Bytes) (start : ℕ)
    → start + length bytes ≤ length buffer
    → length (patched buffer start bytes) ≡ length buffer
length-patched buffer bytes start fits = omega (
  arith,
  length-append (take start buffer ++ bytes) (drop (start + length bytes) buffer),
  length-append (take start buffer) bytes,
  length-take start buffer (omega arith),
  length-drop (start + length bytes) buffer,
)

pub copy_into-patched :
    (buffer bytes : Bytes) (start : ℕ)
    → start + length bytes ≤ length buffer
    → length buffer < u64_mod
    → copy_into buffer start bytes ≡ ok (patched buffer start bytes)
unfolding copy_into
copy_into-patched buffer bytes start fits small =
    let m : (start + length bytes) % u64_mod ≡ start + length bytes = omega arith in
    rw m (ground arith)

module _ (s : Services) (seals : OpensSeals s)
    (injective : (c d : Bytes) → s.hash_content c ≡ s.hash_content d → c ≡ d) (now : ℕ)
    (id : CapsuleId) (name : VolumeName) (vol : BlockVolume) (old : Capsule) (buffer : Bytes)
    (v : BlockView) (named : lookup name v.volumes ≡ some vol)
    (there : lookup vol.capsule_id v.world.registry.capsules ≡ some old)
    (whole : read_capsule s vol.capsule_id v.world ≡ (ok buffer, v.world))
    (size : length buffer ≡ vol.size) (small : vol.size < u64_mod) (inv : IsCounted [] v.world)
    (holds : HoldsContent s v.world) (fresh : lookup id v.world.registry.capsules ≡ none) (b : ℕ)
    (bs : Bytes) (offset : ℕ) (fits : offset + length (b ∷ bs) ≤ vol.size)
    (room : Room
      (length (
        chunks
          (length (patched buffer offset (b ∷ bs)))
          segment_size
          (patched buffer offset (b ∷ bs))))
      (length (patched buffer offset (b ∷ bs)))
      v.world)
    (fine : Acceptable s default_policy (
      chunks
        (length (patched buffer offset (b ∷ bs)))
        segment_size
        (patched buffer offset (b ∷ bs)))) where
  abbrev pub changed : Bytes
  changed = patched buffer offset (b ∷ bs)

  abbrev pub rewritten : BlockVolume
  rewritten = record vol {
    capsule_id = id;
    updated_at = now;
    version = saturating_succ vol.version;
  }

  abbrev pub moved : World → BlockView
  moved w =
      let volumes = insert name rewritten v.volumes in
      record {
        world = w;
        volumes = volumes;
        saved = elim v.saved [ none ↦ none | some _ ↦ some volumes ];
      }

  claim_lem : claim name offset (b ∷ bs) v ≡ (ok vol, v)
  unfolding claim volume
  claim_lem =
      let m : (offset + length (b ∷ bs)) % u64_mod ≡ offset + length (b ∷ bs) = omega arith in
      let inside : ltb vol.size (offset + length (b ∷ bs)) ≡ false = ground arith in
      rw (named, m, inside) refl

  rewrite_capsule_lem :
      (w1 : World)
      → write_capsule_with_policy s now id changed default_policy v.world ≡ (ok id, w1)
      → rewrite_capsule s now id vol offset (b ∷ bs) v ≡ (ok id, record v { world = w1 })
  unfolding rewrite_capsule
  rewrite_capsule_lem w1 wrote =
      rw
        (
          whole,
          copy_into-patched buffer (b ∷ bs) offset (omega (arith, size)) (omega (arith, size)),
          wrote,
        )
        refl

  publish_lem :
      (w1 w2 : World)
      → delete_capsule vol.capsule_id w1 ≡ (ok tt, w2)
      → publish true now name vol id (record v { world = w1 }) ≡ (ok tt, moved w2)
  unfolding publish volume persist
  publish_lem w1 w2 deleted =
      let same_version : nat_beq vol.version vol.version ≡ true = ground arith in
      let same_capsule : nat_beq vol.capsule_id vol.capsule_id ≡ true = ground arith in
      elim (Option-cases v.saved) [
        | inl no_file ↦
            rw (named, same_version, same_capsule, no_file, deleted)
              (ap
                (λ file. (
                  ok tt,
                  record { world = w2; volumes = insert name rewritten v.volumes; saved = file },
                ))
                no_file)
        | inr (volumes, file) ↦ rw (named, same_version, same_capsule, file, deleted) refl
      ]

  -- Reading the volume after the move.
  read_lem :
      (new : Capsule) (w2 : World) (from len : ℕ)
      → lookup id w2.registry.capsules ≡ some new
      → new.size ≡ length changed
      → read_capsule s id w2 ≡ (ok changed, w2)
      → from + len ≤ vol.size
      → read s name from len (moved w2) ≡ (ok (take len (drop from changed)), moved w2)
  unfolding read volume
  read_lem new w2 from len mine full reads inside =
      let kept : length changed ≡ length buffer =
        length-patched buffer (b ∷ bs) offset (omega (arith, size)) in
      let m : (from + len) % u64_mod ≡ from + len = omega arith in
      let within : ltb vol.size (from + len) ≡ false = ground arith in
      let covered : leb (from + len) new.size ≡ true = ground (arith, kept, size, full) in
      let there : lookup name (moved w2).volumes ≡ some rewritten =
        ground (arith, lookup-insert name name rewritten v.volumes, eq_iff name name) in
      let ranged =
        read_range_inside s id new changed w2 from len mine reads (sym full)
          (omega (arith, kept, size, full)) (omega arith) in
      rw (there, m, within, ranged, covered) refl

  -- Under what `write_capsule_roundtrip` asks of the new contents and the world, a write that fits
  -- in its volume succeeds. Every range inside the volume then reads from the old contents with
  -- the bytes put in at the offset; the volume keeps its size and moves to a new capsule and
  -- version, the old capsule is gone, every other capsule reads as before, and counts and content
  -- store stay right.
  pub write_overwrites :
      (w' : World) × (write s true now id name offset (b ∷ bs) v ≡ (ok tt, moved w'))
      × ((from len : ℕ)
          → from + len ≤ vol.size
          → read s name from len (moved w') ≡ (ok (take len (drop from changed)), moved w'))
      × (lookup vol.capsule_id w'.registry.capsules ≡ none)
      × ((other : CapsuleId) (c : Capsule)
          → other ≢ vol.capsule_id
          → lookup other v.world.registry.capsules ≡ some c
          → (read_capsule s other w').0 ≡ (read_capsule s other v.world).0)
      × IsCounted [] w'
      × HoldsContent s w'
  unfolding write
  write_overwrites =
      let (ids, w1, (wrote, reads, inv1, holds1, caps1, same1)) =
        write_capsule_roundtrip s seals injective now id changed default_policy v.world inv holds
          fresh room fine in
      let new = written now id changed default_policy ids in
      let apart : id ≢ vol.capsule_id = λ e. ground (arith, fresh, there, e) in
      let at1 : (j : CapsuleId)
          → lookup j w1.registry.capsules ≡ lookup j (insert id new v.world.registry.capsules) =
        λ j. ap (lookup j) caps1 in
      let there1 : lookup vol.capsule_id w1.registry.capsules ≡ some old = ground (
        arith,
        at1 vol.capsule_id,
        lookup-insert id vol.capsule_id new v.world.registry.capsules,
        eq_iff id vol.capsule_id,
      ) in
      let mine1 : lookup id w1.registry.capsules ≡ some new =
        ground (arith, at1 id, lookup-insert id id new v.world.registry.capsules, eq_iff id id) in
      let (w2, deleted, gone, same2, inv2, holds2, caps2) =
        delete_capsule_keeps_others s vol.capsule_id old w1 inv1 holds1 there1 in
      let mine2 : lookup id w2.registry.capsules ≡ some new = ground (
        arith,
        ap (lookup id) caps2,
        lookup-remove vol.capsule_id id w1.registry.capsules inv1.capsules_distinct,
        eq_iff vol.capsule_id id,
      ) in
      let gathered = read_capsule-gather s id new w2 mine2 in
      let reads2 : read_capsule s id w2 ≡ (ok changed, w2) =
        gathered
        ∙ ap (λ r. (r, w2))
            (sym (ap (λ r. r.0) gathered) ∙ same2 id new apart mine1 ∙ ap (λ r. r.0) reads) in
      (
        w2,
        rw (claim_lem, rewrite_capsule_lem w1 wrote, publish_lem w1 w2 deleted) refl,
        λ from len inside. read_lem new w2 from len mine2 refl reads2 inside,
        ground (
          arith,
          ap (lookup vol.capsule_id) caps2,
          lookup-remove vol.capsule_id vol.capsule_id w1.registry.capsules inv1.capsules_distinct,
          eq_iff vol.capsule_id vol.capsule_id,
        ),
        λ other c ne there'.
            let here : lookup other w1.registry.capsules ≡ some c = ground (
              arith,
              at1 other,
              lookup-insert id other new v.world.registry.capsules,
              eq_iff id other,
              fresh,
            ) in
            same2 other c ne here ∙ same1 other c there',
        inv2,
        holds2,
      )

publish_stale :
    (now : ℕ) (name : VolumeName) (claimed current : BlockVolume) (id : CapsuleId) (v : BlockView)
    → lookup name v.volumes ≡ some current
    → current.version ≢ claimed.version
    → publish true now name claimed id v
      ≡ (err modified_concurrently, record v { world = (delete_capsule id v.world).1 })
unfolding publish volume
publish_stale now name claimed current id v named newer =
    let stale : nat_beq current.version claimed.version ≡ false = ground (arith, newer) in
    rw (named, stale) refl

-- Of two writers that claimed the same volume, below the last version, the one that publishes
-- first moves it to its capsule and the next version. The other is refused, the volume stays as
-- the first left it, and the capsule that the second wrote in vain is deleted.
pub second_writer_refused :
    (now later : ℕ) (name : VolumeName) (vol : BlockVolume) (mine other : CapsuleId) (v : BlockView)
    → lookup name v.volumes ≡ some vol
    → vol.version + 1 < u64_mod
    → let (result, v1) = publish true now name vol mine v in
      (result ≡ ok tt)
      × (lookup name v1.volumes
          ≡ some (record vol { capsule_id = mine; updated_at = now; version = vol.version + 1 }))
      × (publish true later name vol other v1
          ≡ (err modified_concurrently, record v1 { world = (delete_capsule other v1.world).1 }))
second_writer_refused now later name vol mine other v named small =
    let next : saturating_succ vol.version ≡ vol.version + 1 = ground arith in
    let moved_on = record vol { capsule_id = mine; updated_at = now; version = vol.version + 1 } in
    let same_version : nat_beq vol.version vol.version ≡ true = ground arith in
    let same_capsule : nat_beq vol.capsule_id vol.capsule_id ≡ true = ground arith in
    let v1 = (publish true now name vol mine v).1 in
    let first : ((publish true now name vol mine v).0 ≡ ok tt)
        × (lookup name v1.volumes ≡ some moved_on) =
      (unfold publish volume persist in
        elim (Option-cases v.saved) [
          | inl no_file ↦
              rw (named, same_version, same_capsule, no_file, next)
                (refl, ground (arith, lookup-insert name name moved_on v.volumes, eq_iff name name))
          | inr (volumes, file) ↦
              rw (named, same_version, same_capsule, file, next)
                (refl, ground (arith, lookup-insert name name moved_on v.volumes, eq_iff name name))
        ]) in
    (
      first.0,
      first.1,
      publish_stale later name vol moved_on other v1 first.1 (λ e. omega (arith, e)),
    )
