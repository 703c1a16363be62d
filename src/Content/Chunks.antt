-- ===== src/Content/Chunks.antt =====
-- `data.chunks(size)`: nothing is lost, and no chunk is too long.
use space.Prelude.{
  ℕ, zero, suc, ◌<◌, ◌≤◌, ◌≡◌, refl, List, [], ◌∷◌, ◌++◌, length, drop, length-drop, length-take-le,
  take-drop, arith,
}
use space.Common.{Bytes}
use space.Pipeline.Write.{chunks}

unfoldable pub joined : List Bytes → Bytes
joined [] = []
joined (c ∷ cs) = c ++ joined cs

-- Every chunk has at most `size` bytes.
abbrev pub AllShort : ℕ → List Bytes → Type 0
AllShort size [] = Unit
AllShort size (c ∷ cs) = (length c ≤ size) × AllShort size cs

pub joined-chunks :
    (fuel size : ℕ) (bytes : Bytes)
    → 0 < size
    → length bytes ≤ fuel
    → joined (chunks fuel size bytes) ≡ bytes
unfolding chunks joined
joined-chunks zero size [] pos enough = refl
joined-chunks zero size (b ∷ bs) pos enough = absurd (omega arith)
joined-chunks (suc fuel) size [] pos enough = refl
joined-chunks (suc fuel) size (b ∷ bs) pos enough =
    rw (joined-chunks fuel size (drop size (b ∷ bs)) pos (omega (arith, length-drop size (b ∷ bs))))
      (take-drop size (b ∷ bs))

pub chunks-AllShort : (fuel size : ℕ) (bytes : Bytes) → AllShort size (chunks fuel size bytes)
unfolding chunks
chunks-AllShort zero size bytes = tt
chunks-AllShort (suc fuel) size [] = tt
chunks-AllShort (suc fuel) size (b ∷ bs) =
    (length-take-le size (b ∷ bs), chunks-AllShort fuel size (drop size (b ∷ bs)))
