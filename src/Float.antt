-- ===== src/Float.antt =====
-- Rust's `f32` as its bit pattern (`to_bits`), and words as their bits.
--
-- An `f64` occurs in the modelled code only as the exact widening of an `f32` or of a `u32` below
-- 2^24, so it is written as the bit pattern of that `f32`: `as f64` and `as f32` then change nothing
-- (but that hardware may quieten a signalling NaN).
pub mod Bounds
use nam_plug.Prelude.{
  ◌%◌, leb, ℕ, zero, suc, ◌+◌, ◌-◌, ◌*◌, ◌/◌, ◌^◌, Bool, true, false, not, ◌&&◌, ◌||◌, ltb, ◌==◌,
  if◌then◌else◌,
}

abbrev pub F32 : Type 0
F32 = ℕ

abbrev pub F64 : Type 0
F64 = F32

-- The place of the leading bit of a number below 2 ^ fuel, and 0 for 0.
pub leading : ℕ → ℕ → ℕ
leading zero n = 0
leading (suc fuel) n = let rest = leading fuel (n / 2) in if ltb 1 n then rest + 1 else 0

-- `n as f32` for n < 2^24, where it is exact.
unfoldable pub u32_as_f32 : ℕ → F32
unfolding leading
u32_as_f32 n =
    if n == 0 then 0 else (let e = leading 24 n in (127 + e) * 2 ^ 23 + (n * 2 ^ (23 - e) - 2 ^ 23))

-- `x == 0.0`, true of both zeros.
abbrev pub is_zero : F32 → Bool
is_zero x = x == 0 || x == 2 ^ 31

-- A word by its bits, the lowest first.
abbrev pub Word : Type 0
Word = ℕ → Bool

abbrev pub zero_word : Word
zero_word _ = false

-- `w | (1 << k)`, `w & !(1 << k)`, and `w == 0` for a word of a given width.
abbrev pub set_bit : ℕ → Word → Word
set_bit k w j = if j == k then true else w j

abbrev pub clear_bit : ℕ → Word → Word
clear_bit k w j = if j == k then false else w j

abbrev pub is_zero_word : ℕ → Word → Bool
is_zero_word zero w = true
is_zero_word (suc width) w = not (w width) && is_zero_word width w

-- An array by its cells.
abbrev pub update {ℓ} : {A : Type ℓ} → (ℕ → A) → ℕ → A → ℕ → A
update f k v j = if j == k then v else f j

-- The magnitude, and a key that orders the numbers (both zeros have one key).
abbrev pub magnitude : F32 → ℕ
magnitude x = x % 2 ^ 31

unfoldable pub order_key : F32 → ℕ
order_key x = if ltb x (2 ^ 31) then 2 ^ 31 + x else 2 ^ 31 - magnitude x

-- `x.is_nan()` and `x.is_finite()`.
unfoldable pub is_nan : F32 → Bool
is_nan x = ltb (255 * 2 ^ 23) (magnitude x)

unfoldable pub is_finite : F32 → Bool
is_finite x = ltb (magnitude x) (255 * 2 ^ 23)

-- `x < y` and `x <= y`, false if either is a NaN.
abbrev pub lt_f32 : F32 → F32 → Bool
lt_f32 x y = not (is_nan x) && (not (is_nan y) && ltb (order_key x) (order_key y))

abbrev pub le_f32 : F32 → F32 → Bool
le_f32 x y = not (is_nan x) && (not (is_nan y) && leb (order_key x) (order_key y))

-- `x.clamp(lo, hi)`, which panics unless `lo <= hi`.
abbrev pub clamp : F32 → F32 → F32 → F32
clamp lo hi x = if lt_f32 x lo then lo else if lt_f32 hi x then hi else x

-- `x.round()`, halves away from zero, the sign kept.
unfoldable pub round : F32 → F32
unfolding u32_as_f32
round x =
    let sign = x - magnitude x in
    let exponent = magnitude x / 2 ^ 23 in
    let significand = 2 ^ 23 + magnitude x % 2 ^ 23 in
    if ltb exponent 126
    then sign
    else if leb 150 exponent
    then x
    else sign + u32_as_f32 ((significand + 2 ^ (149 - exponent)) / 2 ^ (150 - exponent))
