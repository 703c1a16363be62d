-- ===== src/Keys/Available.antt =====
-- Keys stay what they are: derivation always gives a full key, and no operation of the manager
-- changes the key of a version.
use space.Prelude.{
  ℕ, ◌%◌, ◌+◌, ◌-◌, ◌<◌, ◌≡◌, refl, sym, ap, ◌∙◌, false, none, some, Option, Result, ok, err, [],
  ◌∷◌, ◌++◌, lookup, insert, Error, nat_eq, nat_beq, arith, eq_iff, lookup-insert, length,
  length-append, take, drop, take-over, length-take, length-drop, Option-cases, Bool-cases, inl,
  inr, rotation_in_progress,
}
use space.Common.{Bytes, u32_mod}
use space.Keys.{
  hkdf_salt_domain, XtsKeyPair, from_bytes, KeyManager, Hashes, hkdf_info, expand_blocks,
  hkdf_expand, derive, derive_key, cache_key, cache_derived, new_manager, with_salt, from_tpm,
  fill_cache, get_key, begin_rotation, derive_current, rotate, complete_rotation, clear_cache,
}

module _ (h : Hashes) (block : (key message : Bytes) → length (h.hmac key message) ≡ 32) where
  -- Two blocks of the keyed hash make a key of 64 bytes.
  hkdf_expand-length :
      (prk info : Bytes) → (okm : Bytes) × (hkdf_expand h prk info ≡ ok okm) × (length okm ≡ 64)
  unfolding hkdf_expand expand_blocks
  hkdf_expand-length prk info =
      let b = h.hmac prk (info ++ 1 ∷ []) in
      let c = h.hmac prk (b ++ info ++ 2 ∷ []) in
      let m : length b ≡ 32 = block prk (info ++ 1 ∷ []) in
      let n : length c ≡ 32 = block prk (b ++ info ++ 2 ∷ []) in
      let first : take 64 b ≡ b = take-over 64 b (omega (arith, m)) in
      let second : take (64 - 32) c ≡ c = take-over (64 - 32) c (omega (arith, n)) in
      let total : length (b ++ c) ≡ 64 = omega (arith, m, n, length-append b c) in
      (b ++ c, rw (first, m, second, total) refl, total)

  -- Deriving the key of any version succeeds, with two keys of 32 bytes.
  pub derive-length :
      (master salt : Bytes) (version : ℕ)
      → (key : XtsKeyPair) × (derive h master salt version ≡ ok key)
        × (length key.key1 ≡ 32)
        × (length key.key2 ≡ 32)
  unfolding derive from_bytes
  derive-length master salt version =
      let (okm, e, n) = hkdf_expand-length (h.hmac salt master) (hkdf_info version) in
      (
        from_bytes okm,
        rw e refl,
        length-take 32 okm (omega (arith, n)),
        length-take 32 (drop 32 okm) (omega (arith, n, length-drop 32 okm)),
      )

  -- A manager whose cache holds the keys that it would derive.
  pub record IsGenuine (m : KeyManager) : Type 0 where
    pub cached :
        (version : ℕ) (key : XtsKeyPair)
        → lookup version m.key_cache ≡ some key
        → derive_key h m version ≡ ok key

  cache_key-IsGenuine :
      (version : ℕ) (key : XtsKeyPair) (m : KeyManager)
      → derive_key h m version ≡ ok key
      → IsGenuine m
      → IsGenuine (cache_key h version key m)
  cache_key-IsGenuine version key m e g = record {
    cached = λ v k p. elim (Bool-cases (nat_beq version v)) [
      | inl same ↦
          ap (derive_key h m) (ground (arith, eq_iff version v))
          ∙ e
          ∙ ap ok (ground (arith, lookup-insert version v key m.key_cache))
      | inr other ↦ g.cached v k (ground (arith, lookup-insert version v key m.key_cache))
    ];
  }

  cache_derived-IsGenuine :
      (version : ℕ) (m : KeyManager) → IsGenuine m → IsGenuine (cache_derived h version m)
  unfolding cache_derived
  cache_derived-IsGenuine version m g =
      let (key, e, n, o) = derive-length m.master_key m.hkdf_salt version in
      rw (cache_derived, e) (cache_key-IsGenuine version key m e g)

  empty-IsGenuine : (m : KeyManager) → m.key_cache ≡ [] → IsGenuine m
  unfolding lookup
  empty-IsGenuine m none_cached = record { cached = λ v k p. ground (arith, none_cached) }

  new_manager-IsGenuine : (master : Bytes) → IsGenuine (new_manager h master)
  unfolding new_manager
  new_manager-IsGenuine master = cache_derived-IsGenuine 1 _ (empty-IsGenuine _ refl)

  new_manager-secrets :
      (master : Bytes)
      → ((new_manager h master).master_key ≡ master)
        × ((new_manager h master).current_version ≡ 1)
        × ((new_manager h master).rotating ≡ false)
  unfolding new_manager cache_derived
  new_manager-secrets master =
      let (key, d, n, o) = derive-length master (h.blake3 (hkdf_salt_domain ++ master)) 1 in
      rw (cache_derived, d) (refl, refl, refl)

  -- The salt of a manager: the one that is given, or a hash of the master key.
  abbrev pub salt_for : Bytes → Option Bytes → Bytes
  salt_for master none = h.blake3 (hkdf_salt_domain ++ master)
  salt_for master (some salt) = salt

  -- A manager at rest at version 1, with just the key of that version in its cache, derived from
  -- the secrets.
  pub record IsFresh (master salt : Bytes) (m : KeyManager) : Type 0 where
    pub master_is : m.master_key ≡ master
    pub salt_is : m.hkdf_salt ≡ salt
    pub version_is : m.current_version ≡ 1
    pub at_rest : m.rotating ≡ false
    pub first_key : XtsKeyPair
    pub derived : derive h master salt 1 ≡ ok first_key
    pub cache_is : m.key_cache ≡ (1, first_key) ∷ []

  IsFresh-manager :
      (master salt : Bytes) (start : KeyManager)
      → start.master_key ≡ master
      → start.hkdf_salt ≡ salt
      → start.current_version ≡ 1
      → start.rotating ≡ false
      → start.key_cache ≡ []
      → IsFresh master salt (cache_derived h start.current_version start)
  unfolding cache_derived insert
  IsFresh-manager master salt start e f g r c =
      let (key, d, n, o) = derive-length start.master_key start.hkdf_salt start.current_version in
      rw (cache_derived, d)
        (record {
          master_is = e;
          salt_is = f;
          version_is = g;
          at_rest = r;
          first_key = key;
          derived = (λ i. derive h (sym e i) (sym f i) (sym g i)) ∙ d;
          cache_is = rw (c, g) refl;
        })

  -- With a keyed hash of 32 bytes: a provider without errors gives a manager that holds the
  -- master key provided, and the salt provided or else the hash of the master key, at version 1 and
  -- at rest, whose cache holds the key of version 1 that these two secrets derive and no other, so
  -- that the cache is genuine. An error of the provider is returned, the one for the master key
  -- first.
  pub from_tpm-IsGenuine :
      (master : Bytes) (salt : Option Bytes) (e : Error) (other : Result (Option Bytes))
      → ((m : KeyManager) × (from_tpm h (ok master) (ok salt) ≡ ok m)
          × IsFresh master (salt_for master salt) m
          × IsGenuine m)
        × (from_tpm h (err e) other ≡ err e)
        × (from_tpm h (ok master) (err e) ≡ err e)
  unfolding from_tpm with_salt new_manager
  from_tpm-IsGenuine master none e other =
      let start : KeyManager = record {
        master_key = master;
        hkdf_salt = h.blake3 (hkdf_salt_domain ++ master);
        key_cache = [];
        current_version = 1;
        rotating = false;
      } in
      (
        (
          cache_derived h 1 start,
          refl,
          IsFresh-manager master start.hkdf_salt start refl refl refl refl refl,
          new_manager-IsGenuine master,
        ),
        refl,
        refl,
      )
  from_tpm-IsGenuine master (some salt) e other =
      let first = new_manager h master in
      let salted : KeyManager = record first { hkdf_salt = salt; key_cache = [] } in
      let (f, g, r) : (first.master_key ≡ master)
          × (first.current_version ≡ 1)
          × (first.rotating ≡ false) =
        new_manager-secrets master in
      (
        (
          cache_derived h first.current_version salted,
          refl,
          IsFresh-manager master salt salted f refl g r refl,
          cache_derived-IsGenuine first.current_version salted (empty-IsGenuine salted refl),
        ),
        refl,
        refl,
      )

  -- One call on a manager.
  pub data Step (m : KeyManager) : KeyManager → Type 0 where
    rotates : Step m (rotate h m).1
    completes : Step m (complete_rotation m)
    clears : Step m (clear_cache m)
    gets_key : (version : ℕ) → Step m (get_key h version m).1

  pub data Steps (m : KeyManager) : KeyManager → Type 0 where
    start : Steps m m
    step : {m1 m2 : KeyManager} → Steps m m1 → Step m1 m2 → Steps m m2

  -- What every step keeps: the secrets, and a genuine cache.
  record Follows (m m' : KeyManager) : Type 0 where
    master : m'.master_key ≡ m.master_key
    salt : m'.hkdf_salt ≡ m.hkdf_salt
    genuine : IsGenuine m'

  rotate-Follows : (m : KeyManager) → IsGenuine m → Follows m (rotate h m).1
  unfolding rotate derive_current begin_rotation
  rotate-Follows m g = elim (Bool-cases m.rotating) [
    | inl busy ↦
        rw busy (record { master = refl; salt = refl; genuine = record { cached = g.cached } })
    | inr idle ↦
        let turned = begin_rotation h m in
        let (key, e, n, o) = derive-length m.master_key m.hkdf_salt turned.current_version in
        rw (idle, e)
          (record {
            master = refl;
            salt = refl;
            genuine =
                cache_key-IsGenuine turned.current_version key turned e
                  (record { cached = g.cached });
          })
  ]

  -- What looking a key up gives, and leaves.
  get_key-derive :
      (version : ℕ) (m : KeyManager)
      → IsGenuine m
      → ((get_key h version m).0 ≡ derive_key h m version) × Follows m (get_key h version m).1
  unfolding get_key fill_cache
  get_key-derive version m g = elim (Option-cases (lookup version m.key_cache)) [
    | inl missing ↦
        let (key, e, n, o) = derive-length m.master_key m.hkdf_salt version in
        rw (missing, fill_cache, e)
          (
            ground
                (arith, lookup-insert version version key m.key_cache, eq_iff version version, e),
            record { master = refl; salt = refl; genuine = cache_key-IsGenuine version key m e g },
          )
    | inr (key, there) ↦
        rw (there, fill_cache, there)
          (sym (g.cached version key there), record { master = refl; salt = refl; genuine = g })
  ]

  Step-Follows : {m m' : KeyManager} → IsGenuine m → Step m m' → Follows m m'
  unfolding complete_rotation clear_cache
  Step-Follows {m} g rotates = rotate-Follows m g
  Step-Follows g completes = record {
    master = refl;
    salt = refl;
    genuine = record { cached = g.cached };
  }
  Step-Follows g clears = record { master = refl; salt = refl; genuine = empty-IsGenuine _ refl }
  Step-Follows {m} g (gets_key version) = (get_key-derive version m g).1

  Steps-Follows : {m m' : KeyManager} → IsGenuine m → Steps m m' → Follows m m'
  Steps-Follows g start = record { master = refl; salt = refl; genuine = g }
  Steps-Follows g (step before last) =
      let f = Steps-Follows g before in
      let l = Step-Follows f.genuine last in
      record { master = l.master ∙ f.master; salt = l.salt ∙ f.salt; genuine = l.genuine }

  -- With a keyed hash of 32 bytes and a manager whose cache is genuine: whatever rotations,
  -- completions, clearings and lookups lie between, the manager returns for each version the key
  -- that it returned for it at the start, and looking a key up never fails.
  pub get_key_stable :
      (m m' : KeyManager) (version : ℕ)
      → IsGenuine m
      → Steps m m'
      → ((get_key h version m').0 ≡ (get_key h version m).0)
        × ((key : XtsKeyPair) × ((get_key h version m').0 ≡ ok key)
            × (length key.key1 ≡ 32)
            × (length key.key2 ≡ 32))
  get_key_stable m m' version g steps =
      let f = Steps-Follows g steps in
      let (key, e, n, o) = derive-length m.master_key m.hkdf_salt version in
      let now = (get_key-derive version m' f.genuine).0 in
      let same : derive_key h m' version ≡ derive_key h m version = rw (f.master, f.salt) refl in
      (now ∙ same ∙ sym (get_key-derive version m g).0, (key, now ∙ same ∙ e, n, o))

  -- With a keyed hash of 32 bytes, a rotation that starts from rest below the last version moves
  -- to the next one; a second rotation before `complete_rotation` is refused and changes nothing.
  pub rotate_once :
      (m : KeyManager)
      → m.rotating ≡ false
      → m.current_version + 1 < u32_mod
      → let (result, m') = rotate h m in
        (result ≡ ok (m.current_version + 1))
        × (m'.current_version ≡ m.current_version + 1)
        × (rotate h m' ≡ (err rotation_in_progress, m'))
        × ((complete_rotation m').rotating ≡ false)
  unfolding rotate derive_current begin_rotation complete_rotation
  rotate_once m idle small =
      let next : (m.current_version + 1) % u32_mod ≡ m.current_version + 1 = omega arith in
      let (key, e, n, o) = derive-length m.master_key m.hkdf_salt (m.current_version + 1) in
      rw (idle, next, e) (refl, refl, refl, refl)
