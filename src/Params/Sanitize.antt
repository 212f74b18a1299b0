-- ===== src/Params/Sanitize.antt =====
-- `sanitize_param_value` of src/clap/extensions/params/mod.rs: its results are legal.
use mathlib.Core.Path.{subst}
use nam_plug.Prelude.{
  ℕ, ◌≤◌, ◌≡◌, refl, sym, zero, suc, Option, none, some, true, false, not, if◌then◌else◌, inl, inr,
  Bool-cases, arith,
}
use nam_plug.Float.{F32, is_finite, is_nan, le_f32, clamp, round, order_key}
use nam_plug.Float.Bounds.{round-is_nan}
use nam_plug.Params.{
  zero_f32, one_f32, two_f32, thousand_f32, minus_ninety_f32, minus_forty_f32, half_f32,
  sanitize_param_value, ParamInfo, get_info,
}

abbrev pub Within : F32 → F32 → F32 → Type 0
Within lo hi x = (le_f32 lo x ≡ true) × (le_f32 x hi ≡ true)

clamp-Within :
    (lo hi x : F32) → le_f32 lo hi ≡ true → is_nan x ≡ false → Within lo hi (clamp lo hi x)
clamp-Within lo hi x h k = (ground arith, ground arith)

is_finite-is_nan : (x : F32) → is_finite x ≡ true → is_nan x ≡ false
unfolding is_finite is_nan
is_finite-is_nan x h = ground arith

module _ (lo hi : F32) (ordered : le_f32 lo hi ≡ true) (zero_within : Within lo hi zero_f32) where
  abbrev pub Fits : F32 → F32 → F32 → F32 → F32 → Type 0
  Fits a b d val r = Within a b r × (is_finite val ≡ false → r ≡ d)

  -- One arm of `sanitize_param_value`: a fallback, or a clamp of the value or of its rounding.
  arm :
      (a b d x val : F32)
      → le_f32 a b ≡ true
      → Within a b d
      → (is_finite val ≡ true → is_nan x ≡ false)
      → Fits a b d val (if not (is_finite val) then d else clamp a b x)
  arm a b d x val h k f = elim (Bool-cases (is_finite val)) [
    | inl t ↦ rw t (clamp-Within a b x h (f t), λ e. cc)
    | inr e ↦ rw e (k, λ _. refl)
  ]

  zero_zero : le_f32 zero_f32 zero_f32 ≡ true
  unfolding is_nan order_key
  zero_zero = refl

  zero_one : le_f32 zero_f32 one_f32 ≡ true
  unfolding is_nan order_key
  zero_one = refl

  one_one : le_f32 one_f32 one_f32 ≡ true
  unfolding is_nan order_key
  one_one = refl

  bypass_arm :
      (val : F32)
      → Fits zero_f32 one_f32 zero_f32 val (
          if not (is_finite val)
          then zero_f32
          else if le_f32 half_f32 val
          then one_f32
          else zero_f32)
  bypass_arm val = elim (Bool-cases (is_finite val)) [
    | inr e ↦ rw e ((zero_zero, zero_one), λ _. refl)
    | inl t ↦ elim (Bool-cases (le_f32 half_f32 val)) [
      | inl u ↦ rw (t, u) ((zero_one, one_one), λ e. cc)
      | inr f ↦ rw (t, f) ((zero_zero, zero_one), λ e. cc)
    ]
  ]

  abbrev Legal : Option ParamInfo → F32 → F32 → Type 0
  Legal none val r = Unit
  Legal (some i) val r = Fits i.min_value i.max_value i.default_value val r

  get_info-none : (id : ℕ) → 9 ≤ id → get_info lo hi id ≡ none
  unfolding get_info
  get_info-none id h = ground arith

  stepped_arm :
      (b d val : F32)
      → le_f32 zero_f32 b ≡ true
      → Within zero_f32 b d
      → Fits zero_f32 b d val (if not (is_finite val) then d else clamp zero_f32 b (round val))
  stepped_arm b d val h k = arm zero_f32 b d (round val) val h k (round-is_nan val)

  plain_arm :
      (a b d val : F32)
      → le_f32 a b ≡ true
      → Within a b d
      → Fits a b d val (if not (is_finite val) then d else clamp a b val)
  plain_arm a b d val h k = arm a b d val val h k (is_finite-is_nan val)

  legal_lem :
      (id : ℕ) (val : F32) → Legal (get_info lo hi id) val (sanitize_param_value lo hi id val)
  unfolding get_info sanitize_param_value is_nan order_key
  legal_lem zero val = plain_arm lo hi zero_f32 val ordered zero_within
  legal_lem (suc zero) val = plain_arm lo hi zero_f32 val ordered zero_within
  legal_lem (suc (suc zero)) val =
      plain_arm minus_ninety_f32 minus_forty_f32 minus_ninety_f32 val refl (refl, refl)
  legal_lem (suc (suc (suc zero))) val = bypass_arm val
  legal_lem (suc (suc (suc (suc zero)))) val =
      plain_arm zero_f32 thousand_f32 zero_f32 val refl (refl, refl)
  legal_lem (suc (suc (suc (suc (suc zero))))) val =
      stepped_arm two_f32 one_f32 val refl (refl, refl)
  legal_lem (suc (suc (suc (suc (suc (suc zero)))))) val =
      stepped_arm two_f32 zero_f32 val refl (refl, refl)
  legal_lem (suc (suc (suc (suc (suc (suc (suc zero))))))) val =
      stepped_arm two_f32 zero_f32 val refl (refl, refl)
  legal_lem (suc (suc (suc (suc (suc (suc (suc (suc zero)))))))) val =
      stepped_arm one_f32 one_f32 val refl (refl, refl)
  legal_lem (suc (suc (suc (suc (suc (suc (suc (suc (suc id))))))))) val =
      subst
        (λ o.
          Legal o val (
            sanitize_param_value lo hi (suc (suc (suc (suc (suc (suc (suc (suc (suc id)))))))))
              val))
        (sym (get_info-none (suc (suc (suc (suc (suc (suc (suc (suc (suc id))))))))) (omega arith)))
        tt

  -- For every index that `get_info` describes, and every value, NaN and infinities included, the
  -- sanitized value lies in the declared range, and a non-finite value becomes the declared default.
  pub sanitize_param_value-legal :
      (id : ℕ) (val : F32) (i : ParamInfo)
      → get_info lo hi id ≡ some i
      → Within i.min_value i.max_value (sanitize_param_value lo hi id val)
        × (is_finite val ≡ false → sanitize_param_value lo hi id val ≡ i.default_value)
  sanitize_param_value-legal id val i e =
      subst (λ o. Legal o val (sanitize_param_value lo hi id val)) e (legal_lem id val)
