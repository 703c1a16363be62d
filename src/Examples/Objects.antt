-- ===== src/Examples/Objects.antt =====
-- An object of two bytes, put into a bucket whose name has a slash.
use space.Prelude.{
  ◌≡◌, ◌≢◌, refl, some, ok, err, object_not_found, [], ◌∷◌, lookup, remove, nat_eq, bytes_eq,
  insert,
}
use space.Common.{Capsule}
use space.Gc.{World}
use space.Refcounts.{IsCounted}
use space.Content.{HoldsContent}
use space.Nfs.{Text}
use space.Nfs.Namespace.{starts_with}
use space.S3.{
  S3View, KeyMapping, text_plain, octet_stream, full_key, put_object, get_object, head_object,
  list_objects, mappings_under, delete_object, detect_content_type, ends_with,
}
use space.S3.Objects.{put_object_reads_back}
use space.Examples.Capsules.{services, services-OpensSeals, two_capsules, two_capsules-IsCounted}
use space.Examples.Recovery.{two_capsules-HoldsContent}
use space.Examples.Volumes.{after, after-Acceptable, room, fresh_7}

-- The object "b" of the bucket "a" is capsule 6.
abbrev there : KeyMapping
there = record {
  key = 97 ∷ 47 ∷ 98 ∷ [];
  capsule_id = 6;
  size = 2;
  created_at = 0;
  content_type = octet_stream;
}

abbrev view : S3View
view = record { world = two_capsules; key_map = (97 ∷ 47 ∷ 98 ∷ [], there) ∷ [] }

abbrev put_there : KeyMapping
put_there = record {
  key = 97 ∷ 47 ∷ 99 ∷ 47 ∷ 100 ∷ [];
  capsule_id = 7;
  size = 2;
  created_at = 9;
  content_type = detect_content_type (100 ∷ []);
}

abbrev after_put : World → S3View
after_put w = record {
  world = w;
  key_map = insert (97 ∷ 47 ∷ 99 ∷ 47 ∷ 100 ∷ []) put_there view.key_map;
}

put_object_reads_back_example :
    (w' : World) × (put_object services 8 (ok 9) 7 (97 ∷ 47 ∷ 99 ∷ []) (100 ∷ []) after view
      ≡ (ok 7, after_put w'))
    × ((b k : Text)
        → full_key b k ≡ 97 ∷ 47 ∷ 99 ∷ 47 ∷ 100 ∷ []
        → (get_object services b k (after_put w') ≡ (ok after, after_put w'))
          × (head_object b k (after_put w') ≡ (ok put_there, after_put w')))
    × ((b k : Text) (m : KeyMapping) (c : Capsule)
        → full_key b k ≢ 97 ∷ 47 ∷ 99 ∷ 47 ∷ 100 ∷ []
        → lookup (full_key b k) view.key_map ≡ some m
        → lookup m.capsule_id two_capsules.registry.capsules ≡ some c
        → (get_object services b k (after_put w')).0 ≡ (get_object services b k view).0)
    × IsCounted [] w'
    × HoldsContent services w'
put_object_reads_back_example =
    put_object_reads_back services services-OpensSeals (λ c d e. e) 8 9 7 (97 ∷ 47 ∷ 99 ∷ [])
      (100 ∷ []) after view two_capsules-IsCounted two_capsules-HoldsContent fresh_7 room
      after-Acceptable

text_detected : detect_content_type (97 ∷ 46 ∷ 116 ∷ 120 ∷ 116 ∷ []) ≡ text_plain
unfolding detect_content_type ends_with
text_detected = refl

-- Objects of "a/c" are listed under "a".
listed :
    list_objects (97 ∷ []) (record view { key_map = (97 ∷ 47 ∷ 99 ∷ 47 ∷ 100 ∷ [], there) ∷ [] })
    ≡ there ∷ []
unfolding list_objects mappings_under starts_with
listed = refl

deleted : delete_object (97 ∷ []) (98 ∷ []) view ≡ (ok tt, record view { key_map = [] })
unfolding delete_object head_object lookup remove
deleted = refl

missing : head_object (97 ∷ []) (99 ∷ []) view ≡ (err object_not_found, view)
unfolding head_object lookup
missing = refl
