-- ===== src/Examples/Managers.antt =====
-- A key manager over a keyed hash that is easy to compute.
use mathlib.Core.Path.{subst}
use space.Prelude.{
  none, sym, ◌∙◌, ok_inj, key_not_found, ◌+◌, ◌≡◌, refl, false, some, ok, err, [], ◌∷◌, length,
  replicate, length-replicate, arith, rotation_in_progress, insert, nat_eq,
}
use space.Common.{Bytes}
use space.Keys.{
  KeyManager, XtsKeyPair, Hashes, from_tpm, with_salt, new_manager, cache_derived, derive,
  hkdf_expand, expand_blocks, from_bytes, hkdf_info, get_key, rotate, complete_rotation,
  clear_cache,
}
use space.Keys.Available.{
  IsGenuine, IsFresh, from_tpm-IsGenuine, Steps, start, step, rotates, completes, clears, gets_key,
  get_key_stable, rotate_once,
}

abbrev pub hashes : Hashes
hashes = record {
  hmac = λ key message. replicate 32 (length message + length key);
  blake3 = λ bytes. replicate 32 (length bytes);
}

pub blocks : (key message : Bytes) → length (hashes.hmac key message) ≡ 32
blocks key message = length-replicate 32 (length message + length key)

abbrev pair : XtsKeyPair
pair = record { key1 = replicate 32 61; key2 = replicate 32 93 }

abbrev pub manager : KeyManager
manager = record {
  master_key = 1 ∷ 2 ∷ [];
  hkdf_salt = 3 ∷ [];
  key_cache = (1, pair) ∷ [];
  current_version = 1;
  rotating = false;
}

pub salted : from_tpm hashes (ok (1 ∷ 2 ∷ [])) (ok (some (3 ∷ []))) ≡ ok manager
unfolding from_tpm with_salt new_manager cache_derived derive hkdf_expand expand_blocks from_bytes
    hkdf_info insert
salted = refl

pub manager-IsGenuine : IsGenuine hashes blocks manager
manager-IsGenuine =
    let (m, e, fresh, genuine) =
      (from_tpm-IsGenuine hashes blocks (1 ∷ 2 ∷ []) (some (3 ∷ [])) key_not_found (ok none)).0 in
    subst (IsGenuine hashes blocks) (ok_inj (sym e ∙ salted)) genuine

from_tpm-IsGenuine_example :
    ((m : KeyManager) × (from_tpm hashes (ok (1 ∷ 2 ∷ [])) (ok (some (3 ∷ []))) ≡ ok m)
      × IsFresh hashes blocks (1 ∷ 2 ∷ []) (3 ∷ []) m
      × IsGenuine hashes blocks m)
    × (from_tpm hashes (err key_not_found) (ok none) ≡ err key_not_found)
    × (from_tpm hashes (ok (1 ∷ 2 ∷ [])) (err key_not_found) ≡ err key_not_found)
from_tpm-IsGenuine_example =
    from_tpm-IsGenuine hashes blocks (1 ∷ 2 ∷ []) (some (3 ∷ [])) key_not_found (ok none)

-- A rotation, a lookup of the new key, the end of the rotation, an emptied cache.
abbrev pub later : KeyManager
later = clear_cache (complete_rotation (get_key hashes 2 (rotate hashes manager).1).1)

pub later-Steps : Steps hashes blocks manager later
later-Steps = step (step (step (step start rotates) (gets_key 2)) completes) clears

get_key_stable_example :
    ((get_key hashes 1 later).0 ≡ (get_key hashes 1 manager).0)
    × ((key : XtsKeyPair) × ((get_key hashes 1 later).0 ≡ ok key)
        × (length key.key1 ≡ 32)
        × (length key.key2 ≡ 32))
get_key_stable_example = get_key_stable hashes blocks manager later 1 manager-IsGenuine later-Steps

rotate_once_example :
    let (result, m) = rotate hashes manager in
    (result ≡ ok 2)
    × (m.current_version ≡ 2)
    × (rotate hashes m ≡ (err rotation_in_progress, m))
    × ((complete_rotation m).rotating ≡ false)
rotate_once_example = rotate_once hashes blocks manager refl (omega arith)
