-- ===== src/Keys.antt =====
-- crates/encryption/src/keymanager.rs. HMAC-SHA256 and BLAKE3 are parameters; keys are byte lists.
pub mod Available
use space.Prelude.{
  ℕ, zero, suc, ◌+◌, ◌-◌, ◌*◌, ◌/◌, ◌%◌, ◌^◌, ◌≡◌, Bool, true, false, Option, none, some, Result,
  ok, err, key_derivation_failed, invalid_configuration, invalid_key_length, rotation_in_progress,
  key_not_found, or_err, map_ok, Exec, List, [], ◌∷◌, ◌++◌, Map, lookup, insert, keys, nat_eq,
  nat_beq, ltb, if◌then◌else◌, length, take, drop, ◌>>=◌, ◌>>◌, modify, gets, pure, lift,
}
use space.Common.{Bytes, u32_mod}

abbrev pub xts_key_size : ℕ
xts_key_size = 64

abbrev pub master_key_size : ℕ
master_key_size = 32

-- The texts "SPACE-XTS-AES-256-KEY-V1" and "SPACE-HKDF-SALT-V1".
abbrev pub hkdf_info_context : Bytes
hkdf_info_context =
    83 ∷ 80 ∷ 65 ∷ 67 ∷ 69 ∷ 45 ∷ 88 ∷ 84 ∷ 83 ∷ 45 ∷ 65 ∷ 69 ∷ 83 ∷ 45 ∷ 50 ∷ 53 ∷ 54 ∷ 45 ∷ 75
    ∷ 69 ∷ 89 ∷ 45 ∷ 86 ∷ 49 ∷ []

abbrev pub hkdf_salt_domain : Bytes
hkdf_salt_domain =
    83 ∷ 80 ∷ 65 ∷ 67 ∷ 69 ∷ 45 ∷ 72 ∷ 75 ∷ 68 ∷ 70 ∷ 45 ∷ 83 ∷ 65 ∷ 76 ∷ 84 ∷ 45 ∷ 86 ∷ 49 ∷ []

pub record XtsKeyPair : Type 0 where
  pub key1 : Bytes
  pub key2 : Bytes

unfoldable pub from_bytes : Bytes → XtsKeyPair
from_bytes bytes = record { key1 = take 32 bytes; key2 = take 32 (drop 32 bytes) }

pub record KeyManager : Type 0 where
  pub master_key : Bytes
  pub hkdf_salt : Bytes
  pub key_cache : Map ℕ XtsKeyPair
  pub current_version : ℕ
  pub rotating : Bool

-- `hmac key message` is the 32 bytes of HMAC-SHA256, `blake3` the 32 bytes of the hash.
pub record Hashes : Type 0 where
  pub hmac : Bytes → Bytes → Bytes
  pub blake3 : Bytes → Bytes

unfoldable pub hkdf_info : ℕ → Bytes
hkdf_info version =
    hkdf_info_context
    ++ version / 2 ^ 24 % 256 ∷ version / 2 ^ 16 % 256 ∷ version / 2 ^ 8 % 256 ∷ version % 256 ∷ []

module _ (h : Hashes) where
  -- The loop of `hkdf_expand`. A round takes a block of 32 bytes, so two rounds and the last test
  -- are enough fuel for the 64 bytes of a key.
  unfoldable pub expand_blocks : ℕ → Bytes → Bytes → Bytes → ℕ → Bytes → Result Bytes
  expand_blocks zero prk info previous counter okm = err key_derivation_failed
  expand_blocks (suc fuel) prk info previous counter okm =
      let block = h.hmac prk (previous ++ info ++ counter ∷ []) in
      let more =
        expand_blocks fuel prk info block (counter + 1)
          (okm ++ take (xts_key_size - length okm) block) in
      if ltb (length okm) xts_key_size
      then if ltb 254 counter then err key_derivation_failed else more
      else ok okm

  unfoldable pub hkdf_expand : Bytes → Bytes → Result Bytes
  hkdf_expand prk info = expand_blocks 3 prk info [] 1 []

  unfoldable pub derive : Bytes → Bytes → ℕ → Result XtsKeyPair
  derive master salt version =
      map_ok from_bytes (hkdf_expand (h.hmac salt master) (hkdf_info version))

  abbrev pub derive_key : KeyManager → ℕ → Result XtsKeyPair
  derive_key m version = derive m.master_key m.hkdf_salt version

  abbrev pub cache_key : ℕ → XtsKeyPair → KeyManager → KeyManager
  cache_key version key m = record m { key_cache = insert version key m.key_cache }

  -- `if let Ok(key) = derive_key(version) { key_cache.insert(version, key) }`.
  unfoldable pub cache_derived : ℕ → KeyManager → KeyManager
  cache_derived version m = elim (derive_key m version) [
    | ok key ↦ cache_key version key m
    | err e ↦ m
  ]

  unfoldable pub new_manager : Bytes → KeyManager
  new_manager master = cache_derived 1 (record {
    master_key = master;
    hkdf_salt = h.blake3 (hkdf_salt_domain ++ master);
    key_cache = [];
    current_version = 1;
    rotating = false;
  })

  -- The variable SPACE_MASTER_KEY, if it is set, as `hex::decode` reads it.
  unfoldable pub from_env : Option (Option Bytes) → Result KeyManager
  from_env none = err invalid_configuration
  from_env (some none) = err invalid_configuration
  from_env (some (some bytes)) =
      if nat_beq (length bytes) master_key_size
      then ok (new_manager bytes)
      else err invalid_key_length

  unfoldable pub with_salt : Result (Option Bytes) → KeyManager → Result KeyManager
  unfolding cache_derived
  with_salt (err e) m = err e
  with_salt (ok none) m = ok m
  with_salt (ok (some salt)) m =
      ok (cache_derived m.current_version (record m { hkdf_salt = salt; key_cache = [] }))

  -- What the provider returns for the master key and for the salt.
  unfoldable pub from_tpm : Result Bytes → Result (Option Bytes) → Result KeyManager
  unfolding with_salt
  from_tpm (err e) salt = err e
  from_tpm (ok master) salt = with_salt salt (new_manager master)

  unfoldable pub fill_cache : ℕ → Option XtsKeyPair → Exec KeyManager (Unit {0})
  fill_cache version (some key) = pure tt
  fill_cache version none = do
    m ← gets (λ m. m)
    key ← lift (derive_key m version)
    modify (cache_key version key)

  unfoldable pub get_key : ℕ → Exec KeyManager XtsKeyPair
  unfolding fill_cache
  get_key version = do
    cached ← gets (λ m. lookup version m.key_cache)
    fill_cache version cached
    key ← gets (λ m. lookup version m.key_cache)
    lift (or_err key_not_found key)

  unfoldable pub begin_rotation : KeyManager → KeyManager
  begin_rotation m = record m {
    rotating = true;
    current_version = (m.current_version + 1) % u32_mod;
  }

  unfoldable pub derive_current : Exec KeyManager ℕ
  derive_current = do
    m ← gets (λ m. m)
    key ← lift (derive_key m m.current_version)
    modify (cache_key m.current_version key)
    pure m.current_version

  unfoldable pub rotate : Exec KeyManager ℕ
  unfolding begin_rotation derive_current
  rotate m = if m.rotating then (err rotation_in_progress, m) else derive_current (begin_rotation m)

unfoldable pub complete_rotation : KeyManager → KeyManager
complete_rotation m = record m { rotating = false }

unfoldable pub clear_cache : KeyManager → KeyManager
clear_cache m = record m { key_cache = [] }

-- Before the sort.
abbrev pub available_versions : KeyManager → List ℕ
available_versions m = keys m.key_cache
