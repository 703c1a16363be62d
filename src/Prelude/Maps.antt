-- ===== src/Prelude/Maps.antt =====
-- `HashMap` and `BTreeMap` as association lists. The order of a list is the order in which the map
-- is walked; `HashMap` leaves that order open, and no theorem rests on it.
use mathlib.Core.Path.{◌≡◌, refl}
use mathlib.Core.Option.{Option, none, some}
use mathlib.Core.List.{List, [], ◌∷◌}
use native.Mathlib.Omega.{arith}
use space.Prelude.Tests.{Eq, ◌==◌, eq_iff, if◌then◌else◌}

abbrev pub Map {ℓ κ} : Type ℓ → Type κ → Type (ℓ ⊔ κ)
Map K V = List (K × V)

module _ {ℓ κ} {K : Type ℓ} {V : Type κ} where
  abbrev pub values : Map K V → List V
  values [] = []
  values ((k, v) ∷ m) = v ∷ values m

  abbrev pub keys : Map K V → List K
  keys [] = []
  keys ((k, v) ∷ m) = k ∷ keys m

module _ {ℓ κ} {K : Type ℓ} {V : Type κ} ⦃e : Eq K⦄ where
  unfoldable pub lookup : K → Map K V → Option V
  lookup k [] = none
  lookup k ((j, v) ∷ m) = if j == k then some v else lookup k m

  unfoldable pub insert : K → V → Map K V → Map K V
  insert k v [] = (k, v) ∷ []
  insert k v ((j, w) ∷ m) = if j == k then (k, v) ∷ m else (j, w) ∷ insert k v m

  unfoldable pub remove : K → Map K V → Map K V
  remove k [] = []
  remove k ((j, w) ∷ m) = if j == k then m else (j, w) ∷ remove k m

  -- No key stands twice, as in a real map.
  abbrev pub Distinct : Map K V → Type κ
  Distinct [] = Unit
  Distinct ((k, v) ∷ m) = (lookup k m ≡ none) × Distinct m

  pub lookup-insert :
      (key other : K) (value : V) (m : Map K V)
      → lookup other (insert key value m) ≡ (if key == other then some value else lookup other m)
  unfolding lookup insert
  lookup-insert key other value [] = refl
  lookup-insert key other value ((first, w) ∷ rest) =
      let tail = lookup-insert key other value rest in
      ground (arith, tail, eq_iff first key, eq_iff first other, eq_iff key other)

  pub lookup-remove :
      (k j : K) (m : Map K V)
      → Distinct m
      → lookup j (remove k m) ≡ (if k == j then none else lookup j m)
  unfolding lookup remove
  lookup-remove k j [] d = ground arith
  lookup-remove k j ((i, w) ∷ m) d =
      ground (arith, eq_iff k j, eq_iff i k, eq_iff i j, lookup-remove k j m d.1)

  pub insert-Distinct : (k : K) (v : V) (m : Map K V) → Distinct m → Distinct (insert k v m)
  unfolding lookup insert
  insert-Distinct k v [] d = (refl, tt)
  insert-Distinct k v ((i, w) ∷ m) d =
      ground (arith, eq_iff i k, eq_iff k i, lookup-insert k i v m, insert-Distinct k v m d.1)

  pub remove-Distinct : (k : K) (m : Map K V) → Distinct m → Distinct (remove k m)
  unfolding lookup remove
  remove-Distinct k [] d = tt
  remove-Distinct k ((i, w) ∷ m) d =
      ground (arith, eq_iff i k, eq_iff k i, lookup-remove k i m d.1, remove-Distinct k m d.1)

  -- Inserting at a new key.
  pub insert-remove :
      (k : K) (v : V) (m : Map K V) → lookup k m ≡ none → remove k (insert k v m) ≡ m
  unfolding lookup insert remove
  insert-remove k v [] h = ground (arith, eq_iff k k)
  insert-remove k v ((i, w) ∷ m) h = ground (arith, eq_iff k k, insert-remove k v m)
