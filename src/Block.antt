-- ===== src/Block.antt =====
-- crates/protocol-block/src/lib.rs: volumes of fixed size, each kept in one capsule. Names are lists
-- of character codes; the new capsule's id and the time are arguments.
pub mod Overwrite
pub mod Create
use space.Prelude.{
  ℕ, ◌+◌, ◌%◌, ◌≡◌, Bool, true, false, Option, none, some, Result, ok, err, panicked, io_failed,
  volume_name_empty, volume_name_invalid, volume_size_invalid, volume_exists, volume_not_found,
  beyond_volume, modified_concurrently, or_err, Exec, ◌>>=◌, ◌>>◌, pure, raise, lift, gets, modify,
  List, [], ◌∷◌, ◌++◌, Map, lookup, insert, remove, values, bytes_eq, nat_beq, ltb, leb, not, ◌&&◌,
  ◌||◌, if◌then◌else◌, length, replicate, take, drop,
}
use space.Common.{Bytes, CapsuleId, u64_mod}
use space.Presets.{default_policy}
use space.Gc.{World}
use space.Pipeline.Services.{Services}
use space.Pipeline.Write.{write_capsule_with_policy}
use space.Pipeline.Read.{read_capsule, read_range}
use space.Pipeline.Release.{delete_capsule}
use space.Pipeline.Reconcile.{new_pipeline}

abbrev pub VolumeName : Type 0
VolumeName = List ℕ

abbrev pub default_block_size : ℕ
default_block_size = 4096

pub record BlockVolume : Type 0 where
  pub name : VolumeName
  pub size : ℕ
  pub block_size : ℕ
  pub capsule_id : CapsuleId
  pub created_at : ℕ
  pub updated_at : ℕ
  pub version : ℕ

-- `saved` is the metadata file, if the view has one.
pub record BlockView : Type 0 where
  pub world : World
  pub volumes : Map VolumeName BlockVolume
  pub saved : Option (Map VolumeName BlockVolume)

abbrev pub on_pipeline {ℓ} : {A : Type ℓ} → Exec World A → Exec BlockView A
on_pipeline m v = let (result, w) = m v.world in (result, record v { world = w })

-- `let _ = ...`: the outcome is dropped, what it did is not.
abbrev pub ignoring {ℓ} : {A : Type ℓ} → Exec World A → Exec BlockView (Unit {0})
ignoring m v = (ok tt, record v { world = (m v.world).1 })

unfoldable pub new_view : World → BlockView
new_view w = record { world = new_pipeline w; volumes = []; saved = none }

-- The metadata file as it was, `none` where there is none; it parses.
unfoldable pub open_view : Option (Map VolumeName BlockVolume) → World → BlockView
open_view none w = record { world = new_pipeline w; volumes = []; saved = some [] }
open_view (some volumes) w = record {
  world = new_pipeline w;
  volumes = volumes;
  saved = some volumes;
}

-- The flag says whether the file was written.
unfoldable pub persist : Bool → Exec BlockView (Unit {0})
persist written v = elim v.saved [
  | none ↦ (ok tt, v)
  | some _ ↦ if written then (ok tt, record v { saved = some v.volumes }) else (err io_failed, v)
]

unfoldable pub valid_char : ℕ → Bool
valid_char c =
    (leb 48 c && leb c 57)
    || (leb 65 c && leb c 90)
    || (leb 97 c && leb c 122)
    || nat_beq c 45
    || nat_beq c 95
    || nat_beq c 46

unfoldable pub all_valid : VolumeName → Bool
unfolding valid_char
all_valid [] = true
all_valid (c ∷ cs) = valid_char c && all_valid cs

unfoldable pub validate_volume_name : VolumeName → Result (Unit {0})
unfolding all_valid
validate_volume_name [] = err volume_name_empty
validate_volume_name (c ∷ cs) = if all_valid (c ∷ cs) then ok tt else err volume_name_invalid

unfoldable pub validate_sizes : ℕ → ℕ → Result (Unit {0})
validate_sizes size block_size =
    if nat_beq size 0
    then err volume_size_invalid
    else if nat_beq block_size 0
    then err volume_size_invalid
    else if not (nat_beq (size % block_size) 0)
    then err volume_size_invalid
    else if leb u64_mod size
    then err volume_size_invalid
    else ok tt

unfoldable pub refuse_existing : Option BlockVolume → Result (Unit {0})
refuse_existing none = ok tt
refuse_existing (some volume) = err volume_exists

unfoldable pub volume : VolumeName → Exec BlockView BlockVolume
volume name v = (or_err volume_not_found (lookup name v.volumes), v)

-- Sorted by name in a `BTreeMap`; the order is left open here.
abbrev pub list_volumes : BlockView → List BlockVolume
list_volumes v = values v.volumes

abbrev pub put_volume : BlockVolume → BlockView → BlockView
put_volume volume v = record v { volumes = insert volume.name volume v.volumes }

module _ (s : Services) where
  -- The second look at the name, under the lock that the insertion takes.
  unfoldable pub settle_volume :
      Bool → BlockVolume → Option BlockVolume → Exec BlockView BlockVolume
  unfolding persist
  settle_volume written volume (some other) = do
    ignoring (delete_capsule volume.capsule_id)
    raise volume_exists
  settle_volume written volume none = do modify (put_volume volume); persist written; pure volume

  unfoldable pub create_volume_with_block_size :
      Bool → ℕ → CapsuleId → VolumeName → ℕ → ℕ → Exec BlockView BlockVolume
  unfolding validate_volume_name validate_sizes refuse_existing settle_volume
  create_volume_with_block_size written now id name size block_size = do
    lift (validate_volume_name name)
    lift (validate_sizes size block_size)
    existing ← gets (λ v. lookup name v.volumes)
    lift (refuse_existing existing)
    capsule_id ← on_pipeline (write_capsule_with_policy s now id (replicate size 0) default_policy)
    raced ← gets (λ v. lookup name v.volumes)
    settle_volume written
        (record {
          name = name;
          size = size;
          block_size = block_size;
          capsule_id = capsule_id;
          created_at = now;
          updated_at = now;
          version = 1;
        })
        raced

  unfoldable pub create_volume : Bool → ℕ → CapsuleId → VolumeName → ℕ → Exec BlockView BlockVolume
  create_volume written now id name size =
      create_volume_with_block_size written now id name size default_block_size

  unfoldable pub read : VolumeName → ℕ → ℕ → Exec BlockView Bytes
  unfolding volume
  read name offset len = do
    found ← volume name
    if ltb found.size ((offset + len) % u64_mod)
        then raise beyond_volume
        else on_pipeline (read_range s found.capsule_id offset len)

unfoldable pub delete_volume : Bool → VolumeName → Exec BlockView (Unit {0})
unfolding volume persist
delete_volume written name = do
  found ← volume name
  modify (λ v. record v { volumes = remove name v.volumes })
  persist written
  ignoring (delete_capsule found.capsule_id)

-- `buffer[start..end].copy_from_slice(data)`.
unfoldable pub copy_into : Bytes → ℕ → Bytes → Result Bytes
copy_into buffer start bytes =
    let end' = (start + length bytes) % u64_mod in
    if ltb end' start || ltb (length buffer) end'
    then err panicked
    else ok (take start buffer ++ bytes ++ drop end' buffer)

-- The first look at the volume, under the lock: the range is checked, the version noted.
unfoldable pub claim : VolumeName → ℕ → Bytes → Exec BlockView BlockVolume
unfolding volume
claim name offset bytes = do
  found ← volume name
  if ltb found.size ((offset + length bytes) % u64_mod) then raise beyond_volume else pure found

abbrev pub saturating_succ : ℕ → ℕ
saturating_succ n = if ltb (n + 1) u64_mod then n + 1 else n

-- The second look: the new capsule replaces the old one, unless somebody was faster.
unfoldable pub publish : Bool → ℕ → VolumeName → BlockVolume → CapsuleId → Exec BlockView (Unit {0})
unfolding volume persist
publish written now name claimed id = do
  current ← volume name
  if nat_beq current.version claimed.version && nat_beq current.capsule_id claimed.capsule_id
      then (do
        modify (λ v. record v {
          volumes =
              insert name
                (record current {
                  capsule_id = id;
                  updated_at = now;
                  version = saturating_succ current.version;
                })
                v.volumes;
        })
        persist written
        ignoring (delete_capsule claimed.capsule_id))
      else (do ignoring (delete_capsule id); raise modified_concurrently)

module _ (s : Services) where
  -- Between the two looks: the whole capsule is read, changed and written anew, without a lock.
  unfoldable pub rewrite_capsule :
      ℕ → CapsuleId → BlockVolume → ℕ → Bytes → Exec BlockView CapsuleId
  unfolding copy_into
  rewrite_capsule now id claimed offset bytes = do
    buffer ← on_pipeline (read_capsule s claimed.capsule_id)
    changed ← lift (copy_into buffer offset bytes)
    on_pipeline (write_capsule_with_policy s now id changed default_policy)

  unfoldable pub write : Bool → ℕ → CapsuleId → VolumeName → ℕ → Bytes → Exec BlockView (Unit {0})
  unfolding claim rewrite_capsule publish
  write written now id name offset [] = pure tt
  write written now id name offset (b ∷ bs) = do
    claimed ← claim name offset (b ∷ bs)
    capsule ← rewrite_capsule now id claimed offset (b ∷ bs)
    publish written now name claimed capsule
