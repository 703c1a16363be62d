-- ===== src/Registry.antt =====
-- crates/capsule-registry/src/lib.rs, `CapsuleRegistry`: capsules, the segment counter and the
-- content store, with the state as it was last saved. Default features: no Bloom filter.
use space.Prelude.{
  ℕ, ◌+◌, ◌%◌, Bool, true, false, Option, none, some, capsule_not_found, capsule_collision,
  io_failed, ok, err, Exec, ◌>>=◌, ◌>>◌, pure, raise, gets, lift, modify, or_err, List, [], ◌∷◌,
  ◌++◌, Map, lookup, insert, remove, keys, nat_beq, nat_eq, bytes_eq, if◌then◌else◌, length,
}
use space.Common.{SegmentId, CapsuleId, ContentHash, Capsule, Policy, u64_mod}

-- `RegistryState`, what the metadata file holds.
pub record RegistryState : Type 0 where
  pub capsules : Map CapsuleId Capsule
  pub next_segment_id : ℕ
  pub content_store : Map ContentHash SegmentId

pub record CapsuleRegistry : Type 0 where
  pub state : RegistryState
  pub open state use *
  pub saved : RegistryState

unfoldable pub open_registry : Option RegistryState → CapsuleRegistry
open_registry none =
    let state : RegistryState = record { capsules = []; next_segment_id = 0; content_store = [] } in
    record { state = state; saved = state }
open_registry (some state) = record { state = state; saved = state }

-- The flag says whether the metadata file was written.
unfoldable pub save : Bool → Exec CapsuleRegistry (Unit {0})
save written r = if written then (ok tt, record r { saved = r.state }) else (err io_failed, r)

unfoldable pub put_capsule : CapsuleId → Capsule → CapsuleRegistry → CapsuleRegistry
put_capsule id capsule r = record r {
  state = record r.state { capsules = insert id capsule r.capsules };
}

unfoldable pub put_content : Map ContentHash SegmentId → CapsuleRegistry → CapsuleRegistry
put_content store r = record r { state = record r.state { content_store = store } }

unfoldable pub create_capsule_with_segments :
    Bool → ℕ → CapsuleId → ℕ → List SegmentId → Policy → Exec CapsuleRegistry (Unit {0})
unfolding save put_capsule
create_capsule_with_segments written now id size segments policy = do
  existing ← gets (λ r. lookup id r.capsules)
  let capsule : Capsule = record {
    id = id;
    size = size;
    segments = segments;
    created_at = now;
    policy = policy;
    deduped_bytes = 0;
  }
  elim existing [
    | some _ ↦ raise capsule_collision
    | none ↦ do modify (put_capsule id capsule); save written
  ]

unfoldable pub lookup_capsule : CapsuleId → Exec CapsuleRegistry Capsule
lookup_capsule id r = lift (or_err capsule_not_found (lookup id r.capsules)) r

unfoldable pub alloc_segment : Exec CapsuleRegistry SegmentId
alloc_segment r = (
  ok r.next_segment_id,
  record r { state = record r.state { next_segment_id = (r.next_segment_id + 1) % u64_mod } },
)

unfoldable pub add_segment : Bool → CapsuleId → SegmentId → Exec CapsuleRegistry (Unit {0})
unfolding lookup_capsule put_capsule save
add_segment written id segment = do
  capsule ← lookup_capsule id
  modify (put_capsule id (record capsule { segments = capsule.segments ++ segment ∷ [] }))
  save written

unfoldable pub lookup_content : ContentHash → CapsuleRegistry → Option SegmentId
lookup_content hash r = lookup hash r.content_store

unfoldable pub register_content : Bool → ContentHash → SegmentId → Exec CapsuleRegistry (Unit {0})
unfolding put_content save
register_content written hash segment = do
  modify (λ r. put_content (insert hash segment r.content_store) r)
  save written

drop_content : Bool → ContentHash → Exec CapsuleRegistry Bool
unfolding put_content save
drop_content written hash = do
  modify (λ r. put_content (remove hash r.content_store) r)
  save written
  pure true

deregister_current : Bool → ContentHash → SegmentId → Option SegmentId → Exec CapsuleRegistry Bool
unfolding drop_content
deregister_current written hash segment none = pure false
deregister_current written hash segment (some current) =
    if nat_beq current segment then drop_content written hash else pure false

unfoldable pub deregister_content : Bool → ContentHash → SegmentId → Exec CapsuleRegistry Bool
unfolding deregister_current
deregister_content written hash segment = do
  current ← gets (λ r. lookup hash r.content_store)
  deregister_current written hash segment current

-- A missing capsule is no error here.
unfoldable pub add_deduped_bytes : CapsuleId → ℕ → Exec CapsuleRegistry (Unit {0})
unfolding put_capsule
add_deduped_bytes id bytes r = elim (lookup id r.capsules) [
  | none ↦ (ok tt, r)
  | some c ↦
      (ok tt, put_capsule id (record c { deduped_bytes = (c.deduped_bytes + bytes) % u64_mod }) r)
]

abbrev pub list_capsules : CapsuleRegistry → List CapsuleId
list_capsules r = keys r.capsules

unfoldable pub delete_capsule : Bool → CapsuleId → Exec CapsuleRegistry Capsule
unfolding lookup_capsule save
delete_capsule written id = do
  capsule ← lookup_capsule id
  modify (λ r. record r { state = record r.state { capsules = remove id r.capsules } })
  save written
  pure capsule

count_segments : Map CapsuleId Capsule → ℕ
count_segments [] = 0
count_segments ((id, c) ∷ rest) = length c.segments + count_segments rest

unfoldable pub get_dedup_stats : CapsuleRegistry → ℕ × ℕ
unfolding count_segments
get_dedup_stats r = (count_segments r.capsules, length r.content_store)
