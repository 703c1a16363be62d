-- ===== src/Nfs/Namespace/Files.antt =====
-- A file reads back as it was written, and writing it leaves the other capsules alone.
use space.Prelude.{
  ℕ, ◌≡◌, ◌≢◌, refl, sym, ap, ◌∙◌, true, Option, none, some, Error, ok, err, List, [], ◌∷◌, lookup,
  insert, nat_eq, bytes_eq, bytes_beq, arith, eq_iff, lookup-insert, lookup-remove, length,
  Option-cases, Bool-cases, inl, inr,
}
use space.Common.{Bytes, CapsuleId, Capsule, segment_size}
use space.Presets.{default_policy}
use space.Gc.{World}
use space.Pipeline.Services.{Services}
use space.Pipeline.Read.{read_capsule}
use space.Pipeline.Write.{chunks}
use space.Refcounts.{IsCounted}
use space.Refcounts.Store.{Room}
use space.Refcounts.Trims.{Trims, Trims-refl}
use space.Refcounts.Delete.{delete_capsule-IsCounted}
use space.Content.{HoldsContent}
use space.Content.Prepare.{OpensSeals}
use space.Content.Write.{Acceptable}
use space.Content.Capsules.{written, write_capsule_roundtrip, read_capsule-gather}
use space.Content.Trims.{read_capsule-Trims, HoldsContent-Trims}
use space.Nfs.{Text, NormalizedPath, normalize_path, parent_path}
use space.Nfs.Namespace.{
  NfsNode, NfsView, Nodes, file, new_node, touch, touch_at, ensure_directory, persist, old_capsule,
  drop_capsule, refuse_directory, last_name, link_file, write_file, file_of, open_file, read_file,
}

lookup-touch_at :
    (now : ℕ) (path other : Text) (nodes : Nodes) (node : NfsNode)
    → lookup other nodes ≡ some node
    → (node' : NfsNode) × (lookup other (touch_at now path nodes) ≡ some node')
      × (node'.kind ≡ node.kind)
unfolding touch_at
lookup-touch_at now path other nodes node e = elim (Option-cases (lookup path nodes)) [
  | inl missing ↦ (node, rw (touch_at, missing) e, refl)
  | inr (there, found) ↦ elim (Bool-cases (bytes_beq path other)) [
    | inl same ↦ (
      touch now there,
      rw (touch_at, found) (ground (arith, lookup-insert path other (touch now there) nodes)),
      ground (arith, eq_iff path other),
    )
    | inr apart ↦ (
      node,
      rw (touch_at, found) (ground (arith, lookup-insert path other (touch now there) nodes)),
      refl,
    )
  ]
]

last_name_ok :
    (part : Text) (parts : List Text) → (name : Text) × (last_name (part ∷ parts) ≡ ok name)
unfolding last_name
last_name_ok part [] = (part, refl)
last_name_ok part (next ∷ parts) = last_name_ok next parts

name_of :
    (p : NormalizedPath) (parent : Text)
    → parent_path p ≡ some parent
    → (name : Text) × (last_name p.components ≡ ok name)
unfolding parent_path
name_of p parent e = go p.components refl
  where
    go : (cs : List Text) → p.components ≡ cs → (name : Text) × (last_name p.components ≡ ok name)
    go [] root = absurd (ground (arith, e, root))
    go (part ∷ parts) c = let (name, found) = last_name_ok part parts in (name, rw c found)

persist_lem :
    (v : NfsView)
    → (v' : NfsView) × (persist true v ≡ (ok tt, v')) × (v'.world ≡ v.world) × (v'.nodes ≡ v.nodes)
unfolding persist
persist_lem v = elim (Option-cases v.saved) [
  | inl no_file ↦
      (v, rw (persist, no_file) (ap (λ f. (ok tt, record v { saved = f })) no_file), refl, refl)
  | inr (nodes, found) ↦ (record v { saved = some v.nodes }, rw (persist, found) refl, refl, refl)
]

-- Dropping the capsule that a file had.
drop_capsule-Trims :
    (old : Option CapsuleId) (v : NfsView)
    → IsCounted [] v.world
    → (w' : World) × (drop_capsule old v ≡ (ok tt, record v { world = w' }))
      × IsCounted [] w'
      × Trims v.world w'
      × ((j : CapsuleId)
          → old ≢ some j
          → lookup j w'.registry.capsules ≡ lookup j v.world.registry.capsules)
unfolding drop_capsule
drop_capsule-Trims none v inv = (v.world, refl, inv, Trims-refl v.world, λ j ne. refl)
drop_capsule-Trims (some id) v inv = elim (delete_capsule-IsCounted id v.world inv) [
  | inl missing ↦ (v.world, rw missing.1 refl, inv, Trims-refl v.world, λ j ne. refl)
  | inr (w', deleted, inv', caps, t) ↦ (
    w',
    rw deleted refl,
    inv',
    t,
    λ j ne. ground (
      arith,
      ap (lookup j) caps,
      lookup-remove id j v.world.registry.capsules inv.capsules_distinct,
      eq_iff id j,
      ne,
    ),
  )
]

module _ (s : Services) where
  file_of_lem :
      (node : NfsNode) (id : CapsuleId) (size : ℕ)
      → node.kind ≡ file id size
      → file_of s node.kind ≡ ok (id, size)
  unfolding file_of
  file_of_lem node id size kind = ap (file_of s) kind

  read_file_lem :
      (path : Text) (v : NfsView) (node : NfsNode) (id : CapsuleId) (size : ℕ) (bytes : Bytes)
      → lookup (normalize_path path).full v.nodes ≡ some node
      → node.kind ≡ file id size
      → read_capsule s id v.world ≡ (ok bytes, v.world)
      → read_file s path v ≡ (ok bytes, v)
  unfolding read_file open_file
  read_file_lem path v node id size bytes there kind reads =
      rw (there, file_of_lem node id size kind, reads) refl

module _ (s : Services) (seals : OpensSeals s)
    (injective : (c d : Bytes) → s.hash_content c ≡ s.hash_content d → c ≡ d) (now : ℕ)
    (id : CapsuleId) (path parent : Text) (bytes : Bytes) (v : NfsView) (nodes : Nodes)
    (above : parent_path (normalize_path path) ≡ some parent)
    (free : refuse_directory (lookup (normalize_path path).full v.nodes) ≡ ok tt)
    (made : ensure_directory now (normalize_path parent) v.nodes ≡ (ok tt, nodes))
    (apart : old_capsule (lookup (normalize_path path).full nodes) ≢ some id)
    (inv : IsCounted [] v.world) (holds : HoldsContent s v.world)
    (fresh : lookup id v.world.registry.capsules ≡ none)
    (room : Room (length (chunks (length bytes) segment_size bytes)) (length bytes) v.world)
    (fine : Acceptable s default_policy (chunks (length bytes) segment_size bytes)) where
  abbrev target : NormalizedPath
  target = normalize_path path

  abbrev old : Option CapsuleId
  old = old_capsule (lookup target.full nodes)

  link_file_lem :
      (w : World)
      → (node : NfsNode) × (nodes' : Nodes) × (link_file s now id
            (length bytes)
            target
            (normalize_path parent)
            (record v { world = w })
          ≡ (ok old, record v { world = w; nodes = nodes' }))
        × (lookup target.full nodes' ≡ some node)
        × (node.kind ≡ file id (length bytes))
  unfolding link_file
  link_file_lem w =
      let (name, last) = name_of target parent above in
      let entry = new_node target.full name (file id (length bytes)) now in
      let linked = insert target.full entry nodes in
      let there : lookup target.full linked ≡ some entry = ground (
        arith,
        lookup-insert target.full target.full entry nodes,
        eq_iff target.full target.full,
      ) in
      let (node, found, kind) =
        lookup-touch_at now (normalize_path parent).full target.full linked entry there in
      (node, touch_at now (normalize_path parent).full linked, rw (made, last) refl, found, kind)

  -- Under what `write_capsule_roundtrip` asks of the new contents and the world, writing a file
  -- whose directories can be made and whose path names no directory succeeds, and the file then
  -- reads as what was written; the capsule that it had before is the only one that may read
  -- differently, and counts and content store stay right.
  pub read_file-write_file :
      (v' : NfsView) × (write_file s true now id path bytes v ≡ (ok id, v'))
      × (read_file s path v' ≡ (ok bytes, v'))
      × ((other : CapsuleId) (c : Capsule)
          → old ≢ some other
          → lookup other v.world.registry.capsules ≡ some c
          → (read_capsule s other v'.world).0 ≡ (read_capsule s other v.world).0)
      × IsCounted [] v'.world
      × HoldsContent s v'.world
  unfolding write_file
  read_file-write_file =
      let (ids, w1, (wrote, reads, inv1, holds1, caps1, same1)) =
        write_capsule_roundtrip s seals injective now id bytes default_policy v.world inv holds
          fresh room fine in
      let new = written now id bytes default_policy ids in
      let mine1 : lookup id w1.registry.capsules ≡ some new = ground (
        arith,
        ap (lookup id) caps1,
        lookup-insert id id new v.world.registry.capsules,
        eq_iff id id,
      ) in
      let (node, nodes', linked, found, kind) = link_file_lem w1 in
      let (w2, dropped, inv2, t, kept) =
        drop_capsule-Trims old (record v { world = w1; nodes = nodes' }) inv1 in
      let (v', saved, same_world, same_nodes) =
        persist_lem (record v { world = w2; nodes = nodes' }) in
      let mine2 : lookup id w2.registry.capsules ≡ some new = kept id apart ∙ mine1 in
      let gathered = read_capsule-gather s id new w2 mine2 in
      let reads2 : read_capsule s id w2 ≡ (ok bytes, w2) =
        gathered
        ∙ ap (λ r. (r, w2))
            (sym (ap (λ r. r.0) gathered)
              ∙ read_capsule-Trims s t id new inv2 mine1 mine2
              ∙ ap (λ r. r.0) reads) in
      let there : lookup target.full v'.nodes ≡ some node = rw same_nodes found in
      let reads' : read_capsule s id v'.world ≡ (ok bytes, v'.world) = rw same_world reads2 in
      (
        v',
        rw (above, free, wrote, linked, dropped, saved) refl,
        read_file_lem s path v' node id (length bytes) bytes there kind reads',
        λ other c ne there0.
            let at1 : lookup other w1.registry.capsules ≡ some c = ground (
              arith,
              ap (lookup other) caps1,
              lookup-insert id other new v.world.registry.capsules,
              eq_iff id other,
              fresh,
            ) in
            rw same_world (
              read_capsule-Trims s t other c inv2 at1 (kept other ne ∙ at1) ∙ same1 other c there0),
        rw same_world inv2,
        rw same_world (HoldsContent-Trims s t inv2 holds1),
      )

module _ (s : Services) (seals : OpensSeals s)
    (injective : (c d : Bytes) → s.hash_content c ≡ s.hash_content d → c ≡ d) (now : ℕ)
    (id : CapsuleId) (path parent : Text) (bytes : Bytes) (v : NfsView) (nodes : Nodes) (e : Error)
    (above : parent_path (normalize_path path) ≡ some parent)
    (free : refuse_directory (lookup (normalize_path path).full v.nodes) ≡ ok tt)
    (conflict : ensure_directory now (normalize_path parent) v.nodes ≡ (err e, nodes))
    (inv : IsCounted [] v.world) (holds : HoldsContent s v.world)
    (fresh : lookup id v.world.registry.capsules ≡ none)
    (room : Room (length (chunks (length bytes) segment_size bytes)) (length bytes) v.world)
    (fine : Acceptable s default_policy (chunks (length bytes) segment_size bytes)) where
  -- Under what `write_capsule_roundtrip` asks of the new contents and the world, writing a file
  -- below a path that is a file fails, and leaves behind the capsule it has written: it reads as the
  -- contents and is counted as in use, and the nodes are those that the failed making of
  -- directories left.
  pub write_file_leaks :
      (w' : World) × (write_file s true now id path bytes v
        ≡ (err e, record v { world = w'; nodes = nodes }))
      × (read_capsule s id w' ≡ (ok bytes, w'))
      × IsCounted [] w'
  unfolding write_file link_file
  write_file_leaks =
      let (ids, w1, (wrote, reads, inv1, holds1, caps1, same1)) =
        write_capsule_roundtrip s seals injective now id bytes default_policy v.world inv holds
          fresh room fine in
      (w1, rw (above, free, wrote, conflict) refl, reads, inv1)
