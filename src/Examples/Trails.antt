-- ===== src/Examples/Trails.antt =====
-- An audit log with a hash that is easy to compute.
use space.Prelude.{
  ℕ, ◌≡◌, ◌⊎◌, refl, none, ok, List, [], ◌∷◌, length, replicate, length-replicate, arith,
}
use space.Common.{Bytes}
use space.Audit.{unparsed, AuditState, AuditOptions, with_options}
use space.Audit.Chain.{append_all, HashCollision, appends_are_evident}

abbrev hash : Bytes → Bytes
hash message = replicate 32 (length message)

hash_wide : (message : Bytes) → length (hash message) ≡ 32
hash_wide message = length-replicate 32 (length message)

abbrev options : AuditOptions
options = record { flush_interval = 1; max_file_bytes = 0; tsa_batch_size = 100; tsa_client = none }

abbrev events : List (Bytes × ℕ)
events = ((123 ∷ 125 ∷ []), 5) ∷ ((123 ∷ 49 ∷ 125 ∷ []), 6) ∷ []

appends_are_evident_example :
    (s t : AuditState) × (append_all hash options events (with_options (unparsed ∷ []) [])
      ≡ (ok tt, s))
    × (append_all hash options events (with_options (unparsed ∷ []) []) ≡ (ok tt, t))
    × ((with_options s.file s.rotated).last_hash ≡ s.last_hash)
    × (s.last_hash ≡ t.last_hash → (events ≡ events) ⊎ HashCollision hash hash_wide)
appends_are_evident_example =
    appends_are_evident hash hash_wide options (unparsed ∷ []) [] events events refl (omega arith)
      (omega arith) refl
