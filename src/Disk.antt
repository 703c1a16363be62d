-- ===== src/Disk.antt =====
-- The log file as `std::fs::File` presents it: seek, `write_all` and `read_exact` on a sequence of
-- bytes. A write past the end fills the gap with zeros.
use space.Prelude.{
  ℕ, zero, suc, ◌+◌, ◌-◌, ◌≤◌, ◌≡◌, refl, ap, ◌||◌, Option, none, some, [], ◌∷◌, ◌++◌, arith, leb,
  nat_beq, if◌then◌else◌, length, take, drop, replicate, length-append, length-drop,
  take-append_left, drop-append_left, drop-all, take-all,
}
use mathlib.Core.List.{append-nil}
use space.Common.{Bytes}

pub write_at : Bytes → ℕ → Bytes → Bytes
write_at file off [] = file
write_at file off (b ∷ bs) =
    take off file
    ++ (replicate (off - length file) 0 ++ ((b ∷ bs) ++ drop (off + length (b ∷ bs)) file))

unfoldable pub read_at : Bytes → ℕ → ℕ → Option Bytes
read_at file off n =
    if leb (off + n) (length file) || nat_beq n 0 then some (take n (drop off file)) else none

take-length : (xs : Bytes) → take (length xs) xs ≡ xs
take-length [] = refl
take-length (x ∷ xs) = ap (◌∷◌ x) (take-length xs)

pub drop-past : (n : ℕ) (xs : Bytes) → length xs ≤ n → drop n xs ≡ []
drop-past zero [] h = refl
drop-past zero (x ∷ xs) h = absurd (omega arith)
drop-past (suc n) [] h = refl
drop-past (suc n) (x ∷ xs) h = drop-past n xs (omega arith)

-- At the end of the file a write appends.
pub write_at-end :
    (file bs : Bytes) (off : ℕ) → off ≡ length file → write_at file off bs ≡ file ++ bs
unfolding write_at
write_at-end file [] off h = rw append-nil
write_at-end file (b ∷ bs) off h =
    rw
      (
        h,
        take-length file,
        drop-past (length file + length (b ∷ bs)) file (omega arith),
        append-nil,
      )
      (rw (gap (length file)) refl)
  where
    gap : (n : ℕ) → replicate {A = ℕ} (n - n) 0 ≡ []
    gap n = let e : n - n ≡ 0 = omega arith in rw e

-- At the start of the file a write replaces what is there.
pub write_at-start : (file bs : Bytes) → write_at file 0 bs ≡ bs ++ drop (length bs) file
unfolding write_at
write_at-start file [] = refl
write_at-start file (b ∷ bs) =
    let none_missing : 0 - length file ≡ 0 = omega arith in
    let from_start : 0 + length (b ∷ bs) ≡ length (b ∷ bs) = omega arith in
    rw (none_missing, from_start) refl

-- What was there before stays readable under appended bytes.
pub read_at-append :
    (file bs : Bytes) (off n : ℕ)
    → off + n ≤ length file
    → read_at (file ++ bs) off n ≡ some (take n (drop off file))
unfolding read_at
read_at-append file bs off n h =
    rw
      (
        drop-append_left off file bs (omega arith),
        take-append_left n (drop off file) bs (omega (arith, length-drop off file)),
      )
      (ground (arith, length-append file bs))

pub read_at_in :
    (file : Bytes) (off n : ℕ)
    → off + n ≤ length file
    → read_at file off n ≡ some (take n (drop off file))
unfolding read_at
read_at_in file off n h = ground arith

-- The appended bytes themselves.
pub read_at-append_new :
    (file bs : Bytes) (off : ℕ) → off ≡ length file → read_at (file ++ bs) off (length bs) ≡ some bs
unfolding read_at
read_at-append_new file bs off h =
    rw (h, drop-all file bs, take-length bs) (ground (arith, length-append file bs))

pub drop-drop : (m n : ℕ) (xs : Bytes) → drop (m + n) xs ≡ drop n (drop m xs)
drop-drop zero n xs = let e : 0 + n ≡ n = omega arith in rw e
drop-drop (suc m) n [] = let e : suc m + n ≡ suc (m + n) = omega arith in rw e (nothing n)
  where
    nothing : (k : ℕ) → ◌≡◌ {A = Bytes} [] (drop k [])
    nothing zero = refl
    nothing (suc k) = refl
drop-drop (suc m) n (x ∷ xs) =
    let e : suc m + n ≡ suc (m + n) = omega arith in rw e (drop-drop m n xs)

no_gap : (m n : ℕ) → m ≤ n → replicate {A = ℕ} (m - n) 0 ≡ []
no_gap m n h = let e : m - n ≡ 0 = omega arith in rw e

-- A write over the tail `xs` of a file by bytes of the same length.
pub write_at-over :
    (file xs ys : Bytes)
    → length xs ≡ length ys
    → write_at (file ++ xs) (length file) ys ≡ file ++ ys
unfolding write_at
write_at-over file [] [] h = refl
write_at-over file (x ∷ xs) [] h = absurd (omega arith)
write_at-over file xs (y ∷ ys) h = rw (
  take-all file xs,
  no_gap (length file) (length (file ++ xs)) (omega (arith, length-append file xs)),
  drop-drop (length file) (length (y ∷ ys)) (file ++ xs),
  drop-all file xs,
  drop-past (length (y ∷ ys)) xs (omega arith),
  append-nil,
)
