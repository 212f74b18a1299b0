-- ===== src/Float/Bounds.antt =====
-- The conversions of Float.antt stay within the format.
use native.Mathlib.Nat.{
  mul-le-mul_right, mul-le-mul_left, two-pow-succ, pow-le-pow_right, div-mul-le_self,
}
use nam_plug.Prelude.{
  ℕ, zero, suc, ◌+◌, ◌-◌, ◌*◌, ◌/◌, ◌%◌, ◌^◌, ◌≤◌, ◌<◌, ◌≡◌, ap, true, false, inl, inr, Bool-cases,
  ltb, leb, ◌==◌, arith,
}
use nam_plug.Float.{F32, leading, u32_as_f32, round, is_nan, is_finite, magnitude}

pow_mono : (i j : ℕ) → i ≤ j → 2 ^ i ≤ 2 ^ j
pow_mono i j h = pow-le-pow_right (omega arith) h

double : (m k : ℕ) → 2 ^ m ≡ 2 ^ suc k → 2 ^ m ≡ 2 ^ k + 2 ^ k
double m k e = cc (e, two-pow-succ k)

-- Twice the half, and one place more to the left.
shift_half : (n k r : ℕ) → (n / 2 + 1) * 2 ^ (k + 1) ≤ r → (n + 1) * 2 ^ k ≤ r
shift_half n k r h =
    let a : (n + 1) * 2 ^ k ≤ (n / 2 + 1) * 2 * 2 ^ k = mul-le-mul_right (2 ^ k) (omega arith) in
    let b = double (k + 1) k (ap (λ j. 2 ^ j) (omega arith)) in
    omega (arith, a, h, ap (λ t. (n / 2 + 1) * t) b)

shift_bit : (n k : ℕ) → n ≤ 1 → (n + 1) * 2 ^ k ≤ 2 ^ (1 + k)
shift_bit n k h =
    let a : (n + 1) * 2 ^ k ≤ 2 * 2 ^ k = mul-le-mul_right (2 ^ k) (omega arith) in
    let b = double (1 + k) k (ap (λ j. 2 ^ j) (omega arith)) in omega (arith, a, b)

-- The leading bit bounds the number, also after a shift by `k`.
leading_bounds :
    (fuel n k : ℕ)
    → n < 2 ^ fuel
    → ((n + 1) * 2 ^ k ≤ 2 ^ (leading fuel n + 1 + k)) × (leading fuel n ≤ fuel)
unfolding leading
leading_bounds zero n k h = (shift_bit n k (omega arith), omega arith)
leading_bounds (suc fuel) n k h = elim (Bool-cases (ltb 1 n)) [
  | inl t ↦
      let (b, c) = leading_bounds fuel (n / 2) (k + 1) (half h (two-pow-succ fuel)) in
      rw t (shift_half n k (2 ^ (leading fuel (n / 2) + 1 + 1 + k)) (rw (place k) b), step c)
  | inr f ↦ rw f (shift_bit n k (ground arith), omega arith)
]
  where
    half : n < 2 ^ suc fuel → 2 ^ suc fuel ≡ 2 ^ fuel + 2 ^ fuel → n / 2 < 2 ^ fuel
    half h e = omega arith

    place :
        (k : ℕ) → 2 ^ (leading fuel (n / 2) + 1 + 1 + k) ≡ 2 ^ (leading fuel (n / 2) + 1 + (k + 1))
    place k = ap (λ j. 2 ^ j) (omega arith)

    step : leading fuel (n / 2) ≤ fuel → leading fuel (n / 2) + 1 ≤ suc fuel
    step c = omega arith

pub u32_as_f32-finite : (n : ℕ) → n < 2 ^ 24 → u32_as_f32 n < 255 * 2 ^ 23
unfolding u32_as_f32
u32_as_f32-finite n h =
    let (b, c) = leading_bounds 24 n (23 - leading 24 n) h in
    elim (Bool-cases (n == 0)) [
      | inl t ↦ rw t (omega arith)
      | inr f ↦ rw f (small (leading 24 n) c b)
    ]
  where
    small :
        (e : ℕ)
        → e ≤ 24
        → (n + 1) * 2 ^ (23 - e) ≤ 2 ^ (e + 1 + (23 - e))
        → (127 + e) * 2 ^ 23 + (n * 2 ^ (23 - e) - 2 ^ 23) < 255 * 2 ^ 23
    small e c b = let a = pow_mono (e + 1 + (23 - e)) 25 (omega arith) in omega (arith, a)

-- A number divided by a power of two that is at least 2.
half_at_most : (n k b : ℕ) → 1 ≤ k → n < 2 * b → n / 2 ^ k < b
half_at_most n k b h l =
    let p = pow_mono 1 k h in
    let q = div-mul-le_self n (2 ^ k) in
    let r : n / 2 ^ k * 2 ≤ n / 2 ^ k * 2 ^ k = mul-le-mul_left (n / 2 ^ k) (omega arith) in
    omega (arith, q, r)

-- The integer that a rounding yields is below 2 ^ 24.
rounded_small :
    (s e : ℕ) → s < 2 ^ 24 → 126 ≤ e → e < 150 → (s + 2 ^ (149 - e)) / 2 ^ (150 - e) < 2 ^ 24
rounded_small s e h k l =
    let p = pow_mono (149 - e) 23 (omega arith) in
    half_at_most (s + 2 ^ (149 - e)) (150 - e) (2 ^ 24) (omega arith) (omega (arith, p))

-- A sign put before a finite magnitude.
signed_is_nan : (x v : ℕ) → v < 255 * 2 ^ 23 → is_nan (x - magnitude x + v) ≡ false
unfolding is_nan
signed_is_nan x v h = ground arith

-- The rounding of a finite number is not a NaN.
pub round-is_nan : (x : F32) → is_finite x ≡ true → is_nan (round x) ≡ false
unfolding round is_finite is_nan
round-is_nan x h = elim (Bool-cases (ltb (magnitude x / 2 ^ 23) 126)) [
  | inl t ↦ rw (round, t) (ground arith)
  | inr f ↦ elim (Bool-cases (leb 150 (magnitude x / 2 ^ 23))) [
    | inl u ↦ rw (round, f, u) (ground arith)
    | inr g ↦
        rw (round, f, g)
          (signed_is_nan x
            (u32_as_f32 (
              (2 ^ 23 + magnitude x % 2 ^ 23 + 2 ^ (149 - magnitude x / 2 ^ 23))
              / 2 ^ (150 - magnitude x / 2 ^ 23)))
            (u32_as_f32-finite
              ((2 ^ 23 + magnitude x % 2 ^ 23 + 2 ^ (149 - magnitude x / 2 ^ 23))
                / 2 ^ (150 - magnitude x / 2 ^ 23))
              (rounded_small (2 ^ 23 + magnitude x % 2 ^ 23) (magnitude x / 2 ^ 23) (omega arith)
                (ground arith) (ground arith))))
  ]
]
