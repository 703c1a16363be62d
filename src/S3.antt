-- ===== src/S3.antt =====
-- crates/protocol-s3/src/lib.rs, `S3View` over the synchronous pipeline: objects by bucket and key.
-- Texts are lists of character codes; the new capsule's id and the time are arguments.
pub mod Objects
use space.Prelude.{
  ◌-◌, ◌≡◌, Bool, true, false, Option, none, some, Result, ok, object_not_found, or_err, Exec,
  ◌>>=◌, ◌>>◌, pure, lift, gets, modify, List, [], ◌∷◌, ◌++◌, Map, lookup, insert, remove, leb,
  ◌&&◌, ◌||◌, if◌then◌else◌, length, drop, ℕ, bytes_beq, bytes_eq,
}
use space.Common.{Bytes, CapsuleId}
use space.Gc.{World}
use space.Presets.{default_policy}
use space.Pipeline.Services.{Services}
use space.Pipeline.Write.{write_capsule_with_policy}
use space.Pipeline.Read.{read_capsule}
use space.Pipeline.Reconcile.{new_pipeline}
use space.Nfs.{Text}
use space.Nfs.Namespace.{starts_with}

pub data ContentType : Type 0 where
  text_plain : ContentType
  application_json : ContentType
  text_html : ContentType
  image_jpeg : ContentType
  image_png : ContentType
  octet_stream : ContentType

pub record KeyMapping : Type 0 where
  pub key : Text
  pub capsule_id : CapsuleId
  pub size : ℕ
  pub created_at : ℕ
  pub content_type : ContentType

pub record S3View : Type 0 where
  pub world : World
  pub key_map : Map Text KeyMapping

unfoldable pub new_s3_view : World → S3View
new_s3_view w = record { world = new_pipeline w; key_map = [] }

abbrev pub on_objects {ℓ} : {A : Type ℓ} → Exec World A → Exec S3View A
on_objects m v = let (result, w) = m v.world in (result, record v { world = w })

unfoldable pub ends_with : Text → Text → Bool
ends_with suffix text =
    leb (length suffix) (length text) && bytes_beq (drop (length text - length suffix) text) suffix

-- The suffixes are .txt, .json, .html, .jpg, .jpeg and .png.
unfoldable pub detect_content_type : Text → ContentType
unfolding ends_with
detect_content_type key =
    if ends_with (46 ∷ 116 ∷ 120 ∷ 116 ∷ []) key
    then text_plain
    else if ends_with (46 ∷ 106 ∷ 115 ∷ 111 ∷ 110 ∷ []) key
    then application_json
    else if ends_with (46 ∷ 104 ∷ 116 ∷ 109 ∷ 108 ∷ []) key
    then text_html
    else if ends_with (46 ∷ 106 ∷ 112 ∷ 103 ∷ []) key
        || ends_with (46 ∷ 106 ∷ 112 ∷ 101 ∷ 103 ∷ []) key
    then image_jpeg
    else if ends_with (46 ∷ 112 ∷ 110 ∷ 103 ∷ []) key
    then image_png
    else octet_stream

-- `format!("{}/{}", bucket, key)`.
abbrev pub full_key : Text → Text → Text
full_key bucket key = bucket ++ 47 ∷ key

-- A clock before the epoch is an error, after the capsule is written.
unfoldable pub put_object :
    Services → ℕ → Result ℕ → CapsuleId → Text → Text → Bytes → Exec S3View CapsuleId
unfolding detect_content_type
put_object s now clock id bucket key bytes = do
  capsule_id ← on_objects (write_capsule_with_policy s now id bytes default_policy)
  created ← lift clock
  let mapping : KeyMapping = record {
    key = full_key bucket key;
    capsule_id = capsule_id;
    size = length bytes;
    created_at = created;
    content_type = detect_content_type key;
  }
  modify (λ v. record v { key_map = insert (full_key bucket key) mapping v.key_map })
  pure capsule_id

unfoldable pub head_object : Text → Text → Exec S3View KeyMapping
head_object bucket key v = (or_err object_not_found (lookup (full_key bucket key) v.key_map), v)

unfoldable pub get_object : Services → Text → Text → Exec S3View Bytes
unfolding head_object
get_object s bucket key = do
  mapping ← head_object bucket key
  on_objects (read_capsule s mapping.capsule_id)

unfoldable pub mappings_under : Text → Map Text KeyMapping → List KeyMapping
unfolding starts_with
mappings_under prefix [] = []
mappings_under prefix ((k, m) ∷ rest) =
    let below = mappings_under prefix rest in if starts_with prefix k then m ∷ below else below

unfoldable pub list_objects : Text → S3View → List KeyMapping
unfolding mappings_under
list_objects bucket v = mappings_under (bucket ++ 47 ∷ []) v.key_map

unfoldable pub delete_object : Text → Text → Exec S3View (Unit {0})
unfolding head_object
delete_object bucket key = do
  head_object bucket key
  modify (λ v. record v { key_map = remove (full_key bucket key) v.key_map })
