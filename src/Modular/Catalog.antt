-- ===== src/Modular/Catalog.antt =====
-- `InMemoryCatalog` of crates/pipeline/src/lib.rs and `Blake3Deduper` of crates/dedup/src/lib.rs.
use space.Prelude.{
  ℕ, ◌+◌, ◌%◌, Bool, true, false, Option, none, some, ok, Exec, ◌>>=◌, ◌>>◌, gets, modify, lift,
  or_err, capsule_not_found, List, [], Map, lookup, insert, remove, values, nat_beq, nat_eq,
  bytes_eq, if◌then◌else◌,
}
use space.Common.{SegmentId, CapsuleId, ContentHash, Capsule, Policy, u64_mod}
use space.Pipeline.Services.{DedupStats, no_stats, record_segment}

pub record CatalogInner : Type 0 where
  pub next_segment : ℕ
  pub capsules : Map CapsuleId Capsule
  pub content : Map ContentHash SegmentId

abbrev pub new_catalog : CatalogInner
new_catalog = record { next_segment = 0; capsules = []; content = [] }

unfoldable pub allocate_segment : Exec CatalogInner SegmentId
allocate_segment c = (ok c.next_segment, record c { next_segment = (c.next_segment + 1) % u64_mod })

unfoldable pub catalog_lookup_capsule : CapsuleId → Exec CatalogInner Capsule
catalog_lookup_capsule id c = lift (or_err capsule_not_found (lookup id c.capsules)) c

-- A capsule of the same id is replaced. `now` is the system's time.
unfoldable pub create_capsule :
    ℕ → CapsuleId → ℕ → Policy → List SegmentId → DedupStats → Exec CatalogInner (Unit {0})
create_capsule now id size policy segments stats =
    let capsule : Capsule = record {
      id = id;
      size = size;
      segments = segments;
      created_at = now;
      policy = policy;
      deduped_bytes = stats.bytes_saved;
    } in
    modify (λ c. record c { capsules = insert id capsule c.capsules })

unfoldable pub catalog_delete_capsule : CapsuleId → Exec CatalogInner Capsule
catalog_delete_capsule id = do
  removed ← gets (λ c. lookup id c.capsules)
  modify (λ c. record c { capsules = remove id c.capsules })
  lift (or_err capsule_not_found removed)

abbrev pub catalog_lookup_content : ContentHash → CatalogInner → Option SegmentId
catalog_lookup_content hash c = lookup hash c.content

unfoldable pub catalog_register_content : ContentHash → SegmentId → Exec CatalogInner (Unit {0})
catalog_register_content hash id = modify (λ c. record c { content = insert hash id c.content })

-- The entry goes only if it names this segment.
unfoldable pub without_content : ContentHash → SegmentId → Option SegmentId → Exec CatalogInner Bool
without_content hash id none c = (ok false, c)
without_content hash id (some existing) c =
    if nat_beq existing id
    then (ok true, record c { content = remove hash c.content })
    else (ok false, c)

unfoldable pub catalog_deregister_content : ContentHash → SegmentId → Exec CatalogInner Bool
unfolding without_content
catalog_deregister_content hash id c = without_content hash id (lookup hash c.content) c

abbrev pub catalog_capsules : CatalogInner → List Capsule
catalog_capsules c = values c.capsules

abbrev pub content_entries : CatalogInner → List (ContentHash × SegmentId)
content_entries c = c.content

pub record Blake3Deduper : Type 0 where
  pub index : Map ContentHash SegmentId
  pub stats : DedupStats

abbrev pub new_deduper : Blake3Deduper
new_deduper = record { index = []; stats = no_stats }

abbrev pub check_dedup : ContentHash → Blake3Deduper → Option SegmentId
check_dedup hash d = lookup hash d.index

unfoldable pub deduper_register : ContentHash → SegmentId → Blake3Deduper → Blake3Deduper
deduper_register hash id d = record d { index = insert hash id d.index }

unfoldable pub update_stats : ℕ → Bool → Blake3Deduper → Blake3Deduper
update_stats len was_deduped d = record d { stats = record_segment len was_deduped d.stats }
