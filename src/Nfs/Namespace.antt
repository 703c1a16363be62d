-- ===== src/Nfs/Namespace.antt =====
-- crates/protocol-nfs/src/lib.rs, the namespace: files and directories by their normalized paths,
-- each file kept in one capsule. The new capsule's id and the time are arguments.
pub mod Files
use space.Prelude.{
  ℕ, ◌+◌, ◌%◌, ◌≡◌, Bool, true, false, Option, none, some, Result, ok, err, io_failed, root_path,
  path_conflict, is_a_directory, not_a_directory, no_such_path, directory_not_empty, beyond_file,
  or_err, Exec, ◌>>=◌, ◌>>◌, pure, raise, lift, gets, modify, List, [], ◌∷◌, ◌++◌, Map, lookup,
  insert, remove, bytes_eq, bytes_beq, nat_beq, ltb, not, ◌&&◌, ◌||◌, if◌then◌else◌, length, keys,
  drop,
}
use space.Common.{Bytes, CapsuleId, u64_mod}
use space.Presets.{default_policy}
use space.Gc.{World}
use space.Pipeline.Services.{Services}
use space.Pipeline.Write.{write_capsule_with_policy}
use space.Pipeline.Read.{read_capsule, read_range as read_capsule_range}
use space.Pipeline.Release.{delete_capsule}
use space.Pipeline.Reconcile.{new_pipeline}
use space.Nfs.{Text, NormalizedPath, full_path, normalize_path, parent_path}

-- A file has a capsule and a size.
pub data NfsNodeKind : Type 0 where
  directory : NfsNodeKind
  file : CapsuleId → ℕ → NfsNodeKind

pub record NfsNode : Type 0 where
  pub name : Text
  pub path : Text
  pub kind : NfsNodeKind
  pub created_at : ℕ
  pub modified_at : ℕ

pub record NfsEntry : Type 0 where
  pub path : Text
  pub name : Text
  pub is_directory : Bool
  pub size : ℕ
  pub created_at : ℕ
  pub modified_at : ℕ
  pub capsule_id : Option CapsuleId

abbrev pub Nodes : Type 0
Nodes = Map Text NfsNode

-- `saved` is the namespace file, if the view has one.
pub record NfsView : Type 0 where
  pub world : World
  pub nodes : Nodes
  pub saved : Option Nodes

abbrev pub on_pipeline {ℓ} : {A : Type ℓ} → Exec World A → Exec NfsView A
on_pipeline m v = let (result, w) = m v.world in (result, record v { world = w })

abbrev pub on_nodes {ℓ} : {A : Type ℓ} → Exec Nodes A → Exec NfsView A
on_nodes m v = let (result, nodes) = m v.nodes in (result, record v { nodes = nodes })

abbrev pub new_node : Text → Text → NfsNodeKind → ℕ → NfsNode
new_node path name kind now = record {
  name = name;
  path = path;
  kind = kind;
  created_at = now;
  modified_at = now;
}

abbrev pub touch : ℕ → NfsNode → NfsNode
touch now node = record node { modified_at = now }

abbrev pub is_directory_kind : NfsNodeKind → Bool
is_directory_kind directory = true
is_directory_kind (file id size) = false

unfoldable pub to_entry : NfsNode → NfsEntry
to_entry node = elim node.kind [
  | directory ↦ record {
    path = node.path;
    name = node.name;
    is_directory = true;
    size = 0;
    created_at = node.created_at;
    modified_at = node.modified_at;
    capsule_id = none;
  }
  | file id size ↦ record {
    path = node.path;
    name = node.name;
    is_directory = false;
    size = size;
    created_at = node.created_at;
    modified_at = node.modified_at;
    capsule_id = some id;
  }
]

-- `get_mut(path)` and a new time of modification, if the node is there.
unfoldable pub touch_at : ℕ → Text → Nodes → Nodes
touch_at now path nodes = elim (lookup path nodes) [
  | none ↦ nodes
  | some node ↦ insert path (touch now node) nodes
]

unfoldable pub ensure_root_node : ℕ → Nodes → Nodes
ensure_root_node now nodes = elim (lookup (47 ∷ []) nodes) [
  | none ↦ insert (47 ∷ []) (new_node (47 ∷ []) (47 ∷ []) directory now) nodes
  | some node ↦ insert (47 ∷ []) (touch now node) nodes
]

unfoldable pub visit : ℕ → Text → Text → Option NfsNode → Exec Nodes (Unit {0})
visit now path name none = modify (insert path (new_node path name directory now))
visit now path name (some node) =
    if is_directory_kind node.kind
    then modify (insert path (touch now node))
    else raise path_conflict

unfoldable pub walk : ℕ → List Text → List Text → Exec Nodes (Unit {0})
unfolding visit
walk now seen [] = pure tt
walk now seen (part ∷ parts) = do
  let path = full_path (seen ++ part ∷ [])
  node ← gets (lookup path)
  visit now path part node
  walk now (seen ++ part ∷ []) parts

unfoldable pub ensure_directory : ℕ → NormalizedPath → Exec Nodes (Unit {0})
unfolding ensure_root_node walk
ensure_directory now path = do modify (ensure_root_node now); walk now [] path.components

unfoldable pub new_view : ℕ → World → NfsView
unfolding ensure_root_node
new_view now w = record { world = new_pipeline w; nodes = ensure_root_node now []; saved = none }

-- The namespace file as it was, `none` where there is none; it parses.
unfoldable pub open_view : ℕ → Option Nodes → World → NfsView
unfolding ensure_root_node
open_view now none w = record {
  world = new_pipeline w;
  nodes = ensure_root_node now [];
  saved = some [];
}
open_view now (some nodes) w = record {
  world = new_pipeline w;
  nodes = ensure_root_node now nodes;
  saved = some nodes;
}

-- The flag says whether the file was written.
unfoldable pub persist : Bool → Exec NfsView (Unit {0})
persist written v = elim v.saved [
  | none ↦ (ok tt, v)
  | some _ ↦ if written then (ok tt, record v { saved = some v.nodes }) else (err io_failed, v)
]

abbrev pub capsule_of : NfsNodeKind → Option CapsuleId
capsule_of directory = none
capsule_of (file id size) = some id

unfoldable pub old_capsule : Option NfsNode → Option CapsuleId
old_capsule none = none
old_capsule (some node) = capsule_of node.kind

-- `let _ = delete_capsule(..)`, if there is one.
unfoldable pub drop_capsule : Option CapsuleId → Exec NfsView (Unit {0})
drop_capsule none = pure tt
drop_capsule (some id) = λ v. (ok tt, record v { world = (delete_capsule id v.world).1 })

unfoldable pub refuse_directory : Option NfsNode → Result (Unit {0})
refuse_directory none = ok tt
refuse_directory (some node) = if is_directory_kind node.kind then err is_a_directory else ok tt

-- `name()`; the root has none.
unfoldable pub last_name : List Text → Result Text
last_name [] = err root_path
last_name (part ∷ []) = ok part
last_name (part ∷ next ∷ parts) = last_name (next ∷ parts)

module _ (s : Services) where
  -- What `write_file` does to the nodes once the capsule is written.
  unfoldable pub link_file :
      ℕ → CapsuleId → ℕ → NormalizedPath → NormalizedPath → Exec NfsView (Option CapsuleId)
  unfolding ensure_directory old_capsule last_name touch_at
  link_file now id size path parent = do
    on_nodes (ensure_directory now parent)
    old ← gets (λ v. old_capsule (lookup path.full v.nodes))
    name ← lift (last_name path.components)
    on_nodes (modify (insert path.full (new_node path.full name (file id size) now)))
    on_nodes (modify (touch_at now parent.full))
    pure old

  unfoldable pub write_file : Bool → ℕ → CapsuleId → Text → Bytes → Exec NfsView CapsuleId
  unfolding normalize_path parent_path refuse_directory link_file drop_capsule persist
  write_file written now id path bytes = do
    let target = normalize_path path
    parent ← lift (or_err root_path (parent_path target))
    existing ← gets (λ v. lookup target.full v.nodes)
    lift (refuse_directory existing)
    capsule ← on_pipeline (write_capsule_with_policy s now id bytes default_policy)
    old ← link_file now capsule (length bytes) target (normalize_path parent)
    drop_capsule old
    persist written
    pure capsule

  unfoldable pub file_of : NfsNodeKind → Result (CapsuleId × ℕ)
  file_of directory = err is_a_directory
  file_of (file id size) = ok (id, size)

  unfoldable pub open_file : Text → Exec NfsView (CapsuleId × ℕ)
  unfolding file_of
  open_file path = do
    found ← gets (λ v. lookup (normalize_path path).full v.nodes)
    node ← lift (or_err no_such_path found)
    lift (file_of node.kind)

  unfoldable pub read_file : Text → Exec NfsView Bytes
  unfolding open_file
  read_file path = do (id, size) ← open_file path; on_pipeline (read_capsule s id)

  unfoldable pub read_range : Text → ℕ → ℕ → Exec NfsView Bytes
  unfolding open_file
  read_range path offset len = do
    (id, size) ← open_file path
    if ltb size ((offset + len) % u64_mod)
        then raise beyond_file
        else on_pipeline (read_capsule_range s id offset len)

unfoldable pub mkdir : Bool → ℕ → Text → Exec NfsView (Unit {0})
unfolding ensure_directory persist
mkdir written now path = do on_nodes (ensure_directory now (normalize_path path)); persist written

unfoldable pub starts_with : Text → Text → Bool
starts_with [] text = true
starts_with (c ∷ cs) [] = false
starts_with (c ∷ cs) (d ∷ ds) = nat_beq c d && starts_with cs ds

unfoldable pub any_below : Text → List Text → Bool
unfolding starts_with
any_below prefix [] = false
any_below prefix (path ∷ paths) = starts_with prefix path || any_below prefix paths

-- A directory with something below it is refused.
unfoldable pub may_remove : Text → NfsNodeKind → Nodes → Result (Unit {0})
unfolding any_below
may_remove full directory nodes =
    if any_below (full ++ 47 ∷ []) (keys nodes) then err directory_not_empty else ok tt
may_remove full (file id size) nodes = ok tt

unfoldable pub touch_parent : ℕ → Option Text → Nodes → Nodes
unfolding touch_at
touch_parent now none nodes = nodes
touch_parent now (some parent) nodes = touch_at now parent nodes

unfoldable pub delete : Bool → ℕ → Text → Exec NfsView (Unit {0})
unfolding may_remove touch_parent drop_capsule persist
delete written now path = do
  let target = normalize_path path
  let parent = parent_path target
  lift (or_err root_path parent)
  found ← gets (λ v. lookup target.full v.nodes)
  node ← lift (or_err no_such_path found)
  nodes ← gets (λ v. v.nodes)
  lift (may_remove target.full node.kind nodes)
  on_nodes (modify (remove target.full))
  on_nodes (modify (touch_parent now parent))
  drop_capsule (capsule_of node.kind)
  persist written

unfoldable pub metadata : Text → Exec NfsView NfsEntry
unfolding to_entry
metadata path = do
  found ← gets (λ v. lookup (normalize_path path).full v.nodes)
  node ← lift (or_err no_such_path found)
  pure (to_entry node)

unfoldable pub has_slash : Text → Bool
has_slash [] = false
has_slash (c ∷ cs) = nat_beq c 47 || has_slash cs

-- A path below `prefix` with no further slash.
unfoldable pub is_child : Text → Text → Text → Bool
unfolding starts_with has_slash
is_child prefix self path =
    let remainder = drop (length prefix) path in
    not (bytes_beq path self)
    && starts_with prefix path
    && not (bytes_beq remainder [])
    && not (has_slash remainder)

unfoldable pub children : Text → Text → Nodes → List NfsEntry
unfolding is_child to_entry
children prefix self [] = []
children prefix self ((path, node) ∷ rest) =
    let others = children prefix self rest in
    if is_child prefix self path then to_entry node ∷ others else others

abbrev pub directory_prefix : NormalizedPath → Text
directory_prefix p = elim p.components [ [] ↦ 47 ∷ [] | part ∷ parts ↦ p.full ++ 47 ∷ [] ]

-- In the order of the map.
unfoldable pub list_directory : Text → Exec NfsView (List NfsEntry)
unfolding children
list_directory path = do
  let target = normalize_path path
  found ← gets (λ v. lookup target.full v.nodes)
  node ← lift (or_err no_such_path found)
  nodes ← gets (λ v. v.nodes)
  if is_directory_kind node.kind
      then pure (children (directory_prefix target) target.full nodes)
      else raise not_a_directory
