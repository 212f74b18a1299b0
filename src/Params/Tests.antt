-- ===== src/Params/Tests.antt =====
-- Values that a host may send, sanitized.
use nam_plug.Prelude.{◌≡◌, refl, true, false}
use nam_plug.Float.{F32, is_finite, is_nan, order_key, u32_as_f32, round}
use nam_plug.Params.{
  zero_f32, one_f32, two_f32, thousand_f32, minus_ninety_f32, ParamInfo, get_info,
  sanitize_param_value, bypass_u32_to_bool, bypass_bool_to_u32, bypass_f32_to_bool,
}
use nam_plug.Params.Sanitize.{Within, sanitize_param_value-legal}

-- 1.4, and a NaN.
abbrev bit_more : F32
bit_more = 1068708659

abbrev nan : F32
nan = 2143289344

rounds_down : sanitize_param_value minus_ninety_f32 thousand_f32 7 bit_more ≡ one_f32
unfolding sanitize_param_value round u32_as_f32 is_finite is_nan order_key
rounds_down = refl

bypass-round_trip : bypass_u32_to_bool (bypass_bool_to_u32 (bypass_f32_to_bool one_f32)) ≡ true
unfolding bypass_u32_to_bool bypass_bool_to_u32 bypass_f32_to_bool is_nan order_key
bypass-round_trip = refl

abbrev adaptive : ParamInfo
adaptive = record {
  id = 5;
  is_automatable = true;
  is_modulatable = false;
  is_stepped = true;
  is_bypass = false;
  is_readonly = false;
  min_value = zero_f32;
  max_value = two_f32;
  default_value = one_f32;
}

sanitize_param_value-legal_example :
    Within adaptive.min_value adaptive.max_value
      (sanitize_param_value minus_ninety_f32 thousand_f32 5 nan)
    × (is_finite nan ≡ false
        → sanitize_param_value minus_ninety_f32 thousand_f32 5 nan ≡ adaptive.default_value)
unfolding get_info is_nan order_key
sanitize_param_value-legal_example =
    sanitize_param_value-legal minus_ninety_f32 thousand_f32 refl (refl, refl) 5 nan adaptive refl
