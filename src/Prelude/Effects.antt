-- ===== src/Prelude/Effects.antt =====
-- Fallible code over a state. What was written before an error stays written, so the state comes
-- back beside the error too.
use mathlib.Core.Path.{◌≡◌}
use mathlib.Core.Option.{Option, none, some}

-- The errors of the storage crates, one constructor for each message.
pub data Error : Type 0 where
  segment_not_found already_zero vanished : Error
  txn_finalized pending_not_found io_failed short_read : Error
  capsule_not_found capsule_collision beyond_capsule : Error
  codec_failed integrity_failed : Error
  panicked no_key_manager missing_key_version crypto_failed : Error
  key_derivation_failed invalid_configuration invalid_key_length : Error
  rotation_in_progress key_not_found : Error
  volume_name_empty volume_name_invalid volume_size_invalid : Error
  volume_exists volume_not_found beyond_volume modified_concurrently : Error
  root_path path_conflict is_a_directory not_a_directory no_such_path : Error
  directory_not_empty beyond_file : Error
  invalid_ciphertext_length missing_metadata corrupted_metadata : Error
  missing_integrity_tag integrity_failure not_encrypted plan_beyond_input object_not_found : Error
  segment_too_large exited_early : Error

pub data Result {ℓ} (A : Type ℓ) : Type ℓ where
  ok : A → Result A
  err : Error → Result A

abbrev pub Exec {ℓ κ} : Type ℓ → Type κ → Type (ℓ ⊔ κ)
Exec S A = S → Result A × S

abbrev pub continue {ℓ κ μ} :
    {S : Type ℓ} {A : Type κ} {B : Type μ} → Result A × S → (A → Exec S B) → Result B × S
continue (ok a, s) f = f a s
continue (err e, s) f = (err e, s)

infixl 5 ◌>>=◌ ◌>>◌
abbrev pub ◌>>=◌ {ℓ κ μ} :
    {S : Type ℓ} {A : Type κ} {B : Type μ} → Exec S A → (A → Exec S B) → Exec S B
◌>>=◌ m f s = continue (m s) f

abbrev pub ◌>>◌ {ℓ κ μ} : {S : Type ℓ} {A : Type κ} {B : Type μ} → Exec S A → Exec S B → Exec S B
m >> k = m >>= λ _. k

abbrev pub pure {ℓ κ} : {S : Type ℓ} {A : Type κ} → A → Exec S A
pure a s = (ok a, s)

abbrev pub raise {ℓ κ} : {S : Type ℓ} {A : Type κ} → Error → Exec S A
raise e s = (err e, s)

abbrev pub or_err {ℓ} : {A : Type ℓ} → Error → Option A → Result A
or_err e none = err e
or_err e (some a) = ok a

-- The `?` of a pure fallible step.
abbrev pub lift {ℓ κ} : {S : Type ℓ} {A : Type κ} → Result A → Exec S A
lift r s = (r, s)

abbrev pub gets {ℓ κ} : {S : Type ℓ} {A : Type κ} → (S → A) → Exec S A
gets f s = (ok (f s), s)

abbrev pub modify {ℓ} : {S : Type ℓ} → (S → S) → Exec S (Unit {0})
modify f s = (ok tt, f s)

abbrev pub map_ok {ℓ κ} : {A : Type ℓ} {B : Type κ} → (A → B) → Result A → Result B
map_ok f (ok a) = ok (f a)
map_ok f (err e) = err e

pub ok_inj {ℓ} : {A : Type ℓ} {a b : A} → ok a ≡ ok b → a ≡ b
ok_inj e = cc
