-- ===== src/Examples/Files.antt =====
-- Paths, and a namespace with one file.
use space.Prelude.{
  path_conflict, err, ◌≡◌, ◌≢◌, refl, true, none, some, ok, [], ◌∷◌, lookup, insert, arith, nat_eq,
  bytes_eq, ◌⊎◌,
}
use space.Common.{Capsule, CapsuleId}
use space.Gc.{World}
use space.Pipeline.Read.{read_capsule}
use space.Refcounts.{IsCounted}
use space.Content.{HoldsContent}
use space.Nfs.{
  Text, attach, split, pop, slashes, push_component, collect, join, full_path, normalize_path,
  parent_path,
}
use space.Nfs.Canonical.{AllPlain, normalize_path_canonical, parent_path_components}
use space.Nfs.Namespace.{
  NfsView, Nodes, directory, file, new_node, touch, ensure_root_node, walk, ensure_directory,
  refuse_directory, old_capsule, write_file, read_file,
}
use space.Nfs.Namespace.Files.{read_file-write_file, write_file_leaks}
use space.Examples.Capsules.{services, services-OpensSeals, two_capsules, two_capsules-IsCounted}
use space.Examples.Recovery.{two_capsules-HoldsContent}
use space.Examples.Volumes.{after, after-Acceptable, room, fresh_7}

-- "a/./../b//c"
abbrev tangled : Text
tangled = 97 ∷ 47 ∷ 46 ∷ 47 ∷ 46 ∷ 46 ∷ 47 ∷ 98 ∷ 47 ∷ 47 ∷ 99 ∷ []

tangled_path : (normalize_path tangled).full ≡ 47 ∷ 98 ∷ 47 ∷ 99 ∷ []
unfolding normalize_path collect split attach pop slashes push_component join full_path
tangled_path = refl

normalize_path_canonical_example :
    AllPlain (normalize_path tangled).components
    × (normalize_path (normalize_path tangled).full ≡ normalize_path tangled)
normalize_path_canonical_example = normalize_path_canonical tangled refl

parent_path_components_example :
    let p = normalize_path tangled in
    ((p.components ≡ []) × (parent_path p ≡ none))
    ⊎ ((parent : Text) × (parent_path p ≡ some parent)
        × ((normalize_path parent).components ≡ pop p.components)
        × ((normalize_path parent).full ≡ parent))
parent_path_components_example = parent_path_components tangled refl

-- "/a"
abbrev path : Text
path = 47 ∷ 97 ∷ []

abbrev nodes : Nodes
nodes =
    (47 ∷ [], new_node (47 ∷ []) (47 ∷ []) directory 3)
    ∷ (path, new_node path (97 ∷ []) (file 6 2) 3)
    ∷ []

abbrev touched : Nodes
touched =
    (47 ∷ [], touch 8 (new_node (47 ∷ []) (47 ∷ []) directory 3))
    ∷ (path, new_node path (97 ∷ []) (file 6 2) 3)
    ∷ []

abbrev view : NfsView
view = record { world = two_capsules; nodes = nodes; saved = some [] }

above : parent_path (normalize_path path) ≡ some (47 ∷ [])
unfolding normalize_path collect split attach pop slashes push_component join full_path parent_path
above = refl

free : refuse_directory (lookup (normalize_path path).full view.nodes) ≡ ok tt
unfolding normalize_path collect split attach pop slashes push_component join full_path
    refuse_directory lookup
free = refl

made : ensure_directory 8 (normalize_path (47 ∷ [])) view.nodes ≡ (ok tt, touched)
unfolding normalize_path collect split attach pop slashes push_component join full_path
    ensure_directory ensure_root_node walk lookup insert
made = refl

apart : old_capsule (lookup (normalize_path path).full touched) ≢ some 7
unfolding normalize_path collect split attach pop slashes push_component join full_path old_capsule
    lookup
apart = λ e. absurd (ground arith)

read_file-write_file_example :
    (v' : NfsView) × (write_file services true 8 7 path after view ≡ (ok 7, v'))
    × (read_file services path v' ≡ (ok after, v'))
    × ((other : CapsuleId) (c : Capsule)
        → old_capsule (lookup (normalize_path path).full touched) ≢ some other
        → lookup other two_capsules.registry.capsules ≡ some c
        → (read_capsule services other v'.world).0 ≡ (read_capsule services other two_capsules).0)
    × IsCounted [] v'.world
    × HoldsContent services v'.world
read_file-write_file_example =
    read_file-write_file services services-OpensSeals (λ c d e. e) 8 7 path (47 ∷ []) after view
      touched above free made apart two_capsules-IsCounted two_capsules-HoldsContent fresh_7 room
      after-Acceptable

-- "/a/x", below the file.
abbrev below : Text
below = 47 ∷ 97 ∷ 47 ∷ 120 ∷ []

above_below : parent_path (normalize_path below) ≡ some path
unfolding normalize_path collect split attach pop slashes push_component join full_path parent_path
above_below = refl

free_below : refuse_directory (lookup (normalize_path below).full view.nodes) ≡ ok tt
unfolding normalize_path collect split attach pop slashes push_component join full_path
    refuse_directory lookup
free_below = refl

conflict : ensure_directory 8 (normalize_path path) view.nodes ≡ (err path_conflict, touched)
unfolding normalize_path collect split attach pop slashes push_component join full_path
    ensure_directory ensure_root_node walk lookup insert
conflict = refl

write_file_leaks_example :
    (w' : World) × (write_file services true 8 7 below after view
      ≡ (err path_conflict, record view { world = w'; nodes = touched }))
    × (read_capsule services 7 w' ≡ (ok after, w'))
    × IsCounted [] w'
write_file_leaks_example =
    write_file_leaks services services-OpensSeals (λ c d e. e) 8 7 below path after view touched
      path_conflict above_below free_below conflict two_capsules-IsCounted two_capsules-HoldsContent
      fresh_7 room after-Acceptable
