-- ===== src/Params.antt =====
-- src/clap/extensions/params/mod.rs: the conversions of the bypass parameter and
-- `sanitize_param_value`. The engine's `GAIN_MIN_DB` and `GAIN_MAX_DB` are arguments.
pub mod Sanitize
mod Tests
use nam_plug.Prelude.{
  ℕ, ◌+◌, ◌*◌, ◌^◌, Bool, true, false, Option, none, some, not, ◌||◌, ltb, ◌==◌, if◌then◌else◌,
}
use nam_plug.Float.{F32, F64, is_finite, lt_f32, le_f32, clamp, round}
use nam_plug.Gestures.{
  param_input_gain, param_output_gain, param_gate_thresh, param_bypass, param_active_model,
  param_adaptive_compute, param_slim_override, param_oversample, param_activation,
}

-- The bit patterns of the numbers that the source writes.
abbrev pub zero_f32 : F32
zero_f32 = 0

abbrev pub half_f32 : F32
half_f32 = 1056964608

abbrev pub one_f32 : F32
one_f32 = 1065353216

abbrev pub two_f32 : F32
two_f32 = 1073741824

abbrev pub thousand_f32 : F32
thousand_f32 = 1148846080

abbrev pub minus_ninety_f32 : F32
minus_ninety_f32 = 3266576384

abbrev pub minus_forty_f32 : F32
minus_forty_f32 = 3256877056

unfoldable pub bypass_u32_to_bool : ℕ → Bool
bypass_u32_to_bool val = not (val == 0)

unfoldable pub bypass_bool_to_u32 : Bool → ℕ
bypass_bool_to_u32 b = if b then 1 else 0

unfoldable pub bypass_f32_to_bool : F32 → Bool
bypass_f32_to_bool val = lt_f32 half_f32 val

-- The `match` on the id, its arms in the order of the source.
unfoldable pub sanitize_param_value : F32 → F32 → ℕ → F32 → F32
unfolding round
sanitize_param_value gain_min_db gain_max_db id val =
    if id == param_input_gain || id == param_output_gain
    then (if not (is_finite val) then zero_f32 else clamp gain_min_db gain_max_db val)
    else if id == param_gate_thresh
    then (if not (is_finite val)
        then minus_ninety_f32
        else clamp minus_ninety_f32 minus_forty_f32 val)
    else if id == param_bypass
    then (if not (is_finite val)
        then zero_f32
        else if le_f32 half_f32 val
        then one_f32
        else zero_f32)
    else if id == param_active_model
    then (if not (is_finite val) then zero_f32 else clamp zero_f32 thousand_f32 val)
    else if id == param_adaptive_compute
    then (if not (is_finite val) then one_f32 else clamp zero_f32 two_f32 (round val))
    else if id == param_slim_override || id == param_oversample
    then (if not (is_finite val) then zero_f32 else clamp zero_f32 two_f32 (round val))
    else if id == param_activation
    then (if not (is_finite val) then one_f32 else clamp zero_f32 one_f32 (round val))
    else if not (is_finite val)
    then zero_f32
    else val

-- What `get_info` of src/clap/extensions/params/main.rs writes for an index.
pub record ParamInfo : Type 0 where
  pub id : ℕ
  pub is_automatable : Bool
  pub is_modulatable : Bool
  pub is_stepped : Bool
  pub is_bypass : Bool
  pub is_readonly : Bool
  pub min_value : F64
  pub max_value : F64
  pub default_value : F64

abbrev continuous : ℕ → F64 → F64 → F64 → ParamInfo
continuous id lo hi default = record {
  id = id;
  is_automatable = true;
  is_modulatable = true;
  is_stepped = false;
  is_bypass = false;
  is_readonly = false;
  min_value = lo;
  max_value = hi;
  default_value = default;
}

abbrev stepped : ℕ → F64 → F64 → ParamInfo
stepped id hi default = record {
  id = id;
  is_automatable = true;
  is_modulatable = false;
  is_stepped = true;
  is_bypass = id == param_bypass;
  is_readonly = false;
  min_value = zero_f32;
  max_value = hi;
  default_value = default;
}

unfoldable pub get_info : F32 → F32 → ℕ → Option ParamInfo
get_info gain_min_db gain_max_db param_index =
    if param_index == param_input_gain || param_index == param_output_gain
    then some (continuous param_index gain_min_db gain_max_db zero_f32)
    else if param_index == param_gate_thresh
    then some (continuous param_index minus_ninety_f32 minus_forty_f32 minus_ninety_f32)
    else if param_index == param_bypass
    then some (stepped param_index one_f32 zero_f32)
    else if param_index == param_active_model
    then some (record (stepped param_index thousand_f32 zero_f32) {
      is_automatable = false;
      is_stepped = false;
      is_readonly = true;
    })
    else if param_index == param_adaptive_compute
    then some (stepped param_index two_f32 one_f32)
    else if param_index == param_slim_override || param_index == param_oversample
    then some (stepped param_index two_f32 zero_f32)
    else if param_index == param_activation
    then some (stepped param_index one_f32 one_f32)
    else none
