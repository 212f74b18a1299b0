-- ===== src/Blocks/Event.antt =====
-- src/clap/processor/dsp/orchestrator/worker.rs: `apply_scheduled_event`.
use nam_plug.Prelude.{
  ℕ, Bool, true, false, ◌||◌, not, Option, none, some, List, [], ◌∷◌, ltb, ◌==◌, if◌then◌else◌,
}
use nam_plug.Float.{F32, is_finite}
use nam_plug.Engine.{Engine}
use nam_plug.Dsp.{Dsp}
use nam_plug.Gestures.{
  param_input_gain, param_output_gain, param_gate_thresh, param_bypass, param_adaptive_compute,
  param_slim_override, param_oversample, param_activation,
}
use nam_plug.Params.{sanitize_param_value, bypass_f32_to_bool, bypass_bool_to_u32}
use nam_plug.Restart.{pending, encode}
use nam_plug.Blocks.{ScheduledEvent, GainTarget, Control, Motion}

-- The arms of the `match` on the id.
pub data Param : Type 0 where
  input_gain output_gain gate_thresh bypass adaptive_compute slim_override oversample activation
        other :
      Param

abbrev pub param_of : ℕ → Param
param_of id =
    if id == param_input_gain
    then input_gain
    else if id == param_output_gain
    then output_gain
    else if id == param_gate_thresh
    then gate_thresh
    else if id == param_bypass
    then bypass
    else if id == param_adaptive_compute
    then adaptive_compute
    else if id == param_slim_override
    then slim_override
    else if id == param_oversample
    then oversample
    else if id == param_activation
    then activation
    else other

unfoldable pub is_fusable_gain_param : ℕ → Bool
is_fusable_gain_param param_id = param_id == param_input_gain || param_id == param_output_gain

unfoldable pub event_requires_boundary : ℕ → Bool
unfolding is_fusable_gain_param
event_requires_boundary param_id = not (is_fusable_gain_param param_id)

module _ {E : Engine} (D : Dsp E) where
  -- A change of the factor asks for a restart while the plugin is activated, and else for a rebuild.
  unfoldable pub change_factor : E.Factor → Control D → Control D
  change_factor factor c =
      if D.eq_factor factor c.params.oversample
      then c
      else if ltb 0 c.buffer_size
      then record c {
        params = record c.params { oversample = factor };
        ui_to_rt = record c.ui_to_rt { param_oversample = D.factor_to_u32 factor };
        pending_restart_os_factor = encode D (pending factor);
      }
      else record c {
        params = record c.params { oversample = factor };
        ui_to_rt = record c.ui_to_rt { param_oversample = D.factor_to_u32 factor };
        requested_os_factor = D.factor_to_u32 factor;
        needs_os_rebuild = true;
      }

  unfoldable pub change_activation : E.Precision → Control D → Control D
  change_activation mode c =
      if D.eq_precision mode c.params.activation_precision then c else record c {
        params = record c.params { activation_precision = mode };
        ui_to_rt = record c.ui_to_rt { param_activation = E.precision_as mode };
        activation_tls = mode;
      }

  unfoldable pub control_value : Param → F32 → Control D → Control D
  unfolding change_factor change_activation bypass_f32_to_bool bypass_bool_to_u32
  control_value input_gain val c = record c {
    params = record c.params { input_gain_db = val };
    ui_to_rt = record c.ui_to_rt { param_input_gain = val };
  }
  control_value output_gain val c = record c {
    params = record c.params { output_gain_db = val };
    ui_to_rt = record c.ui_to_rt { param_output_gain = val };
  }
  control_value gate_thresh val c = record c {
    params = record c.params { gate_threshold_db = val };
    ui_to_rt = record c.ui_to_rt { param_gate_thresh = val };
  }
  control_value bypass val c = record c {
    params = record c.params { bypass = bypass_f32_to_bool val };
    ui_to_rt = record c.ui_to_rt { param_bypass = bypass_bool_to_u32 (bypass_f32_to_bool val) };
  }
  control_value adaptive_compute val c = record c {
    params = record c.params { adaptive_compute = E.adaptive_from val };
    ui_to_rt = record c.ui_to_rt { param_adaptive_compute = E.adaptive_as (E.adaptive_from val) };
  }
  control_value slim_override val c = record c {
    params = record c.params { slim_override = E.slim_from val };
    ui_to_rt = record c.ui_to_rt { param_slim_override = E.slim_as (E.slim_from val) };
  }
  control_value oversample val c = change_factor (E.factor_from val) c
  control_value activation val c = change_activation (E.precision_from val) c
  control_value other val c = c

  unfoldable pub control_mod : Param → F32 → Control D → Control D
  control_mod input_gain amount c = record c { mod_input_gain = amount }
  control_mod output_gain amount c = record c { mod_output_gain = amount }
  control_mod gate_thresh amount c = record c { mod_gate_thresh = amount }
  control_mod _ amount c = c

  -- The target that the two gains have, given the control after the event.
  unfoldable pub gain_target : Param → Control D → Option GainTarget
  gain_target input_gain c = some (record {
    is_input = true;
    target = D.db_to_linear (D.add c.params.input_gain_db c.mod_input_gain);
  })
  gain_target output_gain c = some (record {
    is_input = false;
    target = D.db_to_linear (D.add c.params.output_gain_db c.mod_output_gain);
  })
  gain_target _ c = none

  -- `if apply_smoother`.
  abbrev pub smooth : Bool → Option GainTarget → Motion D → Motion D
  smooth false t m = m
  smooth true none m = m
  smooth true (some t) m =
      if t.is_input
      then record m { smoother_in = t.target }
      else record m { smoother_out = t.target }

  unfoldable pub motion_value : Param → F32 → Motion D → Motion D
  motion_value gate_thresh val m = record m { gate_dirty = true }
  motion_value adaptive_compute val m = record m {
    adaptive_compute = D.set_mode (E.adaptive_from val) m.adaptive_compute;
  }
  motion_value slim_override val m = record m {
    adaptive_compute = D.set_slim_override (E.slim_from val) m.adaptive_compute;
  }
  motion_value _ val m = m

  unfoldable pub motion_mod : Param → Motion D → Motion D
  motion_mod gate_thresh m = record m { gate_dirty = true }
  motion_mod _ m = m

  -- `is_finite` or 0, and `sanitize_param_value`.
  abbrev pub amount_of : F32 → F32
  amount_of value = if is_finite value then value else 0

  abbrev pub val_of : ScheduledEvent → F32
  val_of e = sanitize_param_value D.gain_min_db D.gain_max_db e.param_id e.value

  -- `apply_scheduled_event` on what it writes, on the target that it returns, and on what it moves on.
  unfoldable pub apply_control : ScheduledEvent → Control D → Control D
  unfolding control_value control_mod sanitize_param_value is_finite
  apply_control e c =
      if e.is_mod
      then control_mod (param_of e.param_id) (amount_of e.value) c
      else control_value (param_of e.param_id) (val_of e) c

  unfoldable pub target_of : ScheduledEvent → Control D → Option GainTarget
  unfolding gain_target apply_control
  target_of e c = gain_target (param_of e.param_id) (apply_control e c)

  unfoldable pub apply_motion : Bool → ScheduledEvent → Control D → Motion D → Motion D
  unfolding motion_value motion_mod target_of
  apply_motion apply_smoother e c m = smooth apply_smoother (target_of e c) (
      if e.is_mod
      then motion_mod (param_of e.param_id) m
      else motion_value (param_of e.param_id) (val_of e) m)

  -- Every event in the order of delivery.
  unfoldable pub apply_all : List ScheduledEvent → Control D → Control D
  unfolding apply_control
  apply_all [] c = c
  apply_all (e ∷ es) c = apply_all es (apply_control e c)
