-- ===== src/Prelude/Int.antt =====
-- Signed integers; `negsuc n` is -(n + 1).
use Prim.Native.Nat.{ℕ}
use mathlib.Core.Bool.{Bool, true, false}
use space.Prelude.Tests.{leb, if◌then◌else◌}

pub data ℤ : Type 0 where
  pos : ℕ → ℤ
  negsuc : ℕ → ℤ

abbrev pub int_leb : ℤ → ℤ → Bool
int_leb (pos a) (pos b) = leb a b
int_leb (pos a) (negsuc b) = false
int_leb (negsuc a) (pos b) = true
int_leb (negsuc a) (negsuc b) = leb b a

-- `i32::clamp`.
abbrev pub clamp : ℤ → ℤ → ℤ → ℤ
clamp lo hi x = if int_leb x lo then lo else if int_leb hi x then hi else x
