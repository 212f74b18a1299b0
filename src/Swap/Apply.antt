-- ===== src/Swap/Apply.antt =====
-- `ClapCommandSwapHandler::apply_oversample` and `apply_params_from_spsc` of
-- src/clap/processor/params.rs.
use nam_plug.Prelude.{Bool, true, false, ◌&&◌, ltb, if◌then◌else◌}
use nam_plug.Float.{F32, le_f32}
use nam_plug.Engine.{Engine, Params}
use nam_plug.Dsp.{Dsp}
use nam_plug.Gestures.{param_input_gain, param_output_gain, param_gate_thresh}
use nam_plug.Params.{sanitize_param_value}
use nam_plug.Restart.{PendingRestartOs, no_restart, pending, encode, decode}
use nam_plug.Swap.{Shared, Processor}

-- `x == y` on `f32`.
abbrev pub eq_f32 : F32 → F32 → Bool
eq_f32 x y = le_f32 x y && le_f32 y x

module _ {E : Engine} (D : Dsp E) where
  -- `prev == Pending(factor)`.
  unfoldable pub is_pending : E.Factor → PendingRestartOs E → Bool
  is_pending factor no_restart = false
  is_pending factor (pending f) = D.eq_factor f factor

  unfoldable pub request_oversample : E.Factor → Shared → Shared
  unfolding is_pending
  request_oversample factor h =
      if ltb 0 h.buffer_size
      then (if is_pending factor (decode D h.pending_restart_os_factor)
          then h
          else record h { pending_restart_os_factor = encode D (pending factor) })
      else record h { requested_os_factor = D.factor_to_u32 factor; needs_os_rebuild = true }

  unfoldable pub apply_oversample : E.Factor → Processor D → Processor D
  unfolding request_oversample
  apply_oversample factor s = record s { shared = request_oversample factor s.shared }

  abbrev pub sanitized : Params E → Params E
  sanitized p = record p {
    input_gain_db =
        sanitize_param_value D.gain_min_db D.gain_max_db param_input_gain p.input_gain_db;
    output_gain_db =
        sanitize_param_value D.gain_min_db D.gain_max_db param_output_gain p.output_gain_db;
    gate_threshold_db =
        sanitize_param_value D.gain_min_db D.gain_max_db param_gate_thresh p.gate_threshold_db;
  }

  -- `apply_params_from_spsc` step by step: `old` is what the snapshot `p` replaces, and each
  -- difference has its effect, in the order of the source.
  unfoldable pub take_over : Params E → Processor D → Processor D
  take_over p s = record s {
    params = p;
    smoother_in = D.db_to_linear (D.add p.input_gain_db s.mod_input_gain);
    smoother_out = D.db_to_linear (D.add p.output_gain_db s.mod_output_gain);
  }

  unfoldable pub follow_adaptive : Params E → Params E → Processor D → Processor D
  follow_adaptive old p s =
      if D.eq_adaptive old.adaptive_compute p.adaptive_compute
      then s
      else record s { adaptive_compute = D.set_mode p.adaptive_compute s.adaptive_compute }

  unfoldable pub follow_slim : Params E → Params E → Processor D → Processor D
  follow_slim old p s =
      if D.eq_slim old.slim_override p.slim_override
      then s
      else record s { adaptive_compute = D.set_slim_override p.slim_override s.adaptive_compute }

  unfoldable pub follow_oversample : Params E → Params E → Processor D → Processor D
  unfolding apply_oversample
  follow_oversample old p s =
      if D.eq_factor old.oversample p.oversample then s else apply_oversample p.oversample s

  unfoldable pub follow_activation : Params E → Params E → Processor D → Processor D
  follow_activation old p s =
      if D.eq_precision old.activation_precision p.activation_precision
      then s
      else record s { activation_tls = p.activation_precision }

  unfoldable pub follow_gate : Params E → Params E → Processor D → Processor D
  follow_gate old p s =
      if eq_f32 old.gate_threshold_db p.gate_threshold_db then s else record s { gate_dirty = true }

  unfoldable pub apply_params_from_spsc : Params E → Processor D → Processor D
  unfolding take_over follow_adaptive follow_slim follow_oversample follow_activation follow_gate
  apply_params_from_spsc new_params s =
      let old = s.params in
      let p = sanitized new_params in
      follow_gate old p (
        follow_activation old p
          (follow_oversample old p (follow_slim old p (follow_adaptive old p (take_over p s)))))
