-- ===== src/Examples/Seals.antt =====
-- Sealing with a cipher and a keyed hash that are easy to compute.
use space.Prelude.{ℕ, zero, suc, ◌≡◌, ◌⊎◌, refl, ap, ok, [], ◌∷◌, ◌++◌, length, replicate, arith}
use space.Common.{Bytes, Policy, uncompressed}
use space.Pipeline.Services.{EncryptionMetadata}
use space.Content.Prepare.{OpensSeals}
use space.Encryption.Policy.{new_xts}
use space.Encryption.Xts.{Xts, XtsLaws}
use space.Encryption.Mac.{Blake3, compute_mac, serialize_metadata_for_mac}
use space.Encryption.Mac.Forgery.{Describes, Collision, forgery_collides, verify_mac_lem}
use space.Encryption.Segments.{services_of}
use space.Encryption.Segments.Opening.{Sealed, open_segment-seal_segment, services_of-OpensSeals}
use space.Keys.Available.{IsGenuine}
use space.Examples.Managers.{manager-IsGenuine, hashes, blocks, manager, later, later-Steps}
use space.Examples.Capsules.{services, policy}

-- A cipher that adds one to each byte.
unfoldable shift : Bytes → Bytes
shift [] = []
shift (b ∷ bs) = suc b ∷ shift bs

unfoldable unshift : Bytes → Bytes
unshift [] = []
unshift (zero ∷ bs) = zero ∷ unshift bs
unshift (suc b ∷ bs) = b ∷ unshift bs

unshift-shift : (bs : Bytes) → unshift (shift bs) ≡ bs
unfolding shift unshift
unshift-shift [] = refl
unshift-shift (b ∷ bs) = ap (λ c. b ∷ c) (unshift-shift bs)

length-shift : (bs : Bytes) → length (shift bs) ≡ length bs
unfolding shift
length-shift [] = refl
length-shift (b ∷ bs) = ap suc (length-shift bs)

abbrev cipher : Xts
cipher = record {
  encrypt_sector = λ pair tweak b. shift b;
  decrypt_sector = λ pair tweak b. unshift b;
}

cipher-XtsLaws : XtsLaws cipher
cipher-XtsLaws = record {
  inverse = λ pair tweak b full wide long. unshift-shift b;
  same_length = λ pair tweak b full wide long. length-shift b;
}

abbrev blake : Blake3
blake = record { hash = λ b. replicate 32 (length b); keyed = λ key b. b ++ key }

genuine : IsGenuine hashes blocks manager
genuine = manager-IsGenuine

abbrev text : Bytes
text = replicate 16 97

abbrev meta : EncryptionMetadata
meta = new_xts 1 (replicate 16 7) 16

open_segment-seal_segment_example :
    Sealed hashes blocks blake cipher cipher-XtsLaws (3 ∷ []) text manager later
open_segment-seal_segment_example =
    open_segment-seal_segment hashes blocks blake cipher cipher-XtsLaws (3 ∷ []) text manager later
      genuine later-Steps (omega arith) (omega arith)

services_of-OpensSeals_example :
    OpensSeals (services_of hashes blake cipher services.codec services.hash_content manager later)
services_of-OpensSeals_example =
    services_of-OpensSeals hashes blocks blake cipher cipher-XtsLaws services.codec
      services.hash_content manager later genuine later-Steps

-- A chunk of three bytes under a policy without compression.
abbrev uncompressed_policy : Policy
uncompressed_policy = record policy { compression = uncompressed }

meta-Describes : Describes meta 1 1 (replicate 16 7) 16
unfolding new_xts
meta-Describes = record {
  version_is = refl;
  key_version_is = refl;
  tweak_is = refl;
  len_is = refl;
  version_fits = omega arith;
  key_version_fits = omega arith;
  tweak_fits = refl;
  len_fits = omega arith;
}

text_tag : compute_mac blake text meta (1 ∷ []) (2 ∷ []) ≡ ok text
unfolding compute_mac
text_tag = refl

forgery_collides_example :
    ((text ≡ text)
      × ◌≡◌ {A = ℕ} 1 1
      × ◌≡◌ {A = ℕ} 1 1
      × (replicate {A = ℕ} 16 7 ≡ replicate 16 7)
      × ◌≡◌ {A = ℕ} 16 16)
    ⊎ Collision blake
        (1 ∷ [])
        (2 ∷ [])
        (text ++ serialize_metadata_for_mac meta)
        (text ++ serialize_metadata_for_mac meta)
forgery_collides_example =
    forgery_collides blake (1 ∷ []) (2 ∷ []) text text meta meta 1 1 1 1 (replicate 16 7)
      (replicate 16 7) 16 16 text meta-Describes meta-Describes text_tag
      ((verify_mac_lem blake text meta (1 ∷ []) (2 ∷ []) text).0.0 text_tag)
