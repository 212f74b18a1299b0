-- ===== src/Blocks/Cut.antt =====
-- src/clap/processor/dsp/orchestrator.rs: `schedule_input_events`, `process_wet_sub_blocks`, and the events
-- of `process_dry_contained_block`.
use nam_plug.Prelude.{
  ℕ, zero, suc, ◌+◌, ◌-◌, Bool, true, false, not, ◌&&◌, ◌||◌, Option, none, some, List, [], ◌∷◌,
  ◌++◌, length, ltb, leb, ◌==◌, if◌then◌else◌,
}
use nam_plug.Float.{F32}
use nam_plug.Engine.{Engine}
use nam_plug.Dsp.{Dsp}
use nam_plug.Blocks.{
  ScheduledEvent, GainStep, GainTarget, trigger, Control, Motion, SubBlock, Render, Slice,
}
use nam_plug.Blocks.Event.{event_requires_boundary, apply_control, target_of, apply_motion}

abbrev pub max_scheduled_events : ℕ
max_scheduled_events = 4096

abbrev pub min_split_samples : ℕ
min_split_samples = 16

abbrev pub max_gain_steps : ℕ
max_gain_steps = 64

-- `MAX_RESAMP_BUF` of the engine is the argument `max_resamp_buf`.
module _ {E : Engine} (D : Dsp E) (R : Render D) where
  abbrev pub gate_refreshed : F32 → Motion D → Motion D
  gate_refreshed modulated_gate_db m =
      let close_db = R.minus_six modulated_gate_db in
      record m {
        threshold_open_sq = R.square (D.db_to_linear modulated_gate_db);
        threshold_close_sq = R.square (D.db_to_linear close_db);
        threshold_open_db = modulated_gate_db;
        threshold_close_db = close_db;
        gate_dirty = false;
      }

  -- `if self.gate_dirty`, then the crossfade's trigger.
  unfoldable pub refresh : Control D → Motion D → Motion D
  unfolding trigger
  refresh c m =
      let r =
        if m.gate_dirty
        then gate_refreshed (D.add c.params.gate_threshold_db c.mod_gate_thresh) m
        else m in
      record r { bypass_xfade = trigger c.params.bypass r.bypass_xfade }

  -- `if out_of_order_applied` and `if remaining_applied`.
  abbrev pub refresh_if : Bool → Slice D → Slice D
  refresh_if false s = s
  refresh_if true s = record s { motion = refresh s.control s.motion }

  -- One event, applied with its jump of the smoother.
  abbrev pub applied : ScheduledEvent → List ScheduledEvent → Bool → Slice D → Slice D
  applied e es anomaly s = record s {
    control = apply_control D e s.control;
    motion = apply_motion D true e s.control s.motion;
    events = es;
    timing_anomaly = anomaly || s.timing_anomaly;
  }

  -- Events that are late, on the events from `event_idx` on; with whether there were any.
  unfoldable pub apply_late : ℕ → List ScheduledEvent → Slice D → Slice D × Bool
  apply_late current_abs [] s = (s, false)
  apply_late current_abs (e ∷ es) s =
      let rest = (apply_late current_abs es (applied e es true s)).0 in
      if ltb e.time current_abs then (rest, true) else (s, false)

  -- The events at the boundary.
  unfoldable pub apply_at : ℕ → List ScheduledEvent → Slice D → Slice D
  apply_at boundary [] s = s
  apply_at boundary (e ∷ es) s =
      let rest = apply_at boundary es (applied e es false s) in
      if e.time == boundary then rest else s

  -- What is left when the block closes.
  unfoldable pub apply_remaining : List ScheduledEvent → Slice D → Slice D
  apply_remaining [] s = s
  apply_remaining (e ∷ es) s = apply_remaining es (applied e es true s)

  -- The next boundary: `base` is the slice's start, `from` the absolute time now.
  unfoldable pub find_boundary : Bool → ℕ → ℕ → ℕ → ℕ → List ScheduledEvent → ℕ
  find_boundary fuse base from n gains [] = n
  find_boundary fuse base from n gains (e ∷ es) =
      let skip = find_boundary fuse base from n gains es in
      let more = find_boundary fuse base from n (gains + 1) es in
      if ltb e.time from
      then skip
      else if leb (base + n) e.time
      then n
      else if not fuse || event_requires_boundary e.param_id
      then e.time - base
      else if ltb max_gain_steps (gains + 1)
      then e.time - base
      else more

  -- A step is staged if the event has a target and there is room.
  abbrev pub staged_step : ℕ → Option GainTarget → List GainStep → List GainStep
  staged_step offset none steps = steps
  staged_step offset (some t) steps =
      if ltb (length steps) max_gain_steps
      then steps ++ (record { offset = offset; target = t.target; is_input = t.is_input } ∷ [])
      else steps

  -- The gain events before `until`, applied without their jump.
  unfoldable pub stage :
      ℕ → ℕ → List ScheduledEvent → List GainStep → Slice D → Slice D × List GainStep
  stage until from [] steps s = (s, steps)
  stage until from (e ∷ es) steps s =
      let rest =
        stage until from es (staged_step (e.time - from) (target_of D e s.control) steps)
          (record s {
            control = apply_control D e s.control;
            motion = apply_motion D false e s.control s.motion;
            events = es;
          }) in
      if leb until e.time || event_requires_boundary e.param_id then (s, steps) else rest

  abbrev pub stage_if : Bool → ℕ → ℕ → Slice D → Slice D × List GainStep
  stage_if false until from s = (s, [])
  stage_if true until from s = stage until from s.events [] s

  -- `if sub_n > 0`: the call, and the output's offset after it.
  unfoldable pub render : SubBlock D → Slice D → Slice D × ℕ
  render b s =
      if ltb 0 b.sub_n
      then (
        record s { motion = R.process_sub_block b s.motion; sub_blocks = s.sub_blocks ++ (b ∷ []) },
        b.output_offset + R.n_out b s.motion,
      )
      else (s, b.output_offset)

  -- `while ... && sub_end < n_samples`.
  abbrev pub apply_at_if : Bool → ℕ → Slice D → Slice D
  apply_at_if false boundary s = s
  apply_at_if true boundary s = apply_at boundary s.events s

  module _ (max_resamp_buf : ℕ) (sorted : Bool) where
    abbrev pub fuses : ℕ → Slice D → Bool
    fuses n s =
        ltb 1 min_split_samples
        && sorted
        && leb n max_resamp_buf
        && not s.motion.bypass_xfade.active
        && not s.control.params.bypass

    -- From the late events to the boundary.
    unfoldable pub at_boundary : ℕ → ℕ → ℕ → ℕ → Bool → ℕ → Slice D → Slice D × ℕ
    unfolding stage render apply_at refresh
    at_boundary base n block_offset output_offset fuse sub_end s =
        let (t, steps) =
          stage_if (fuse && ltb 0 (sub_end - block_offset)) (base + sub_end) (base + block_offset)
            s in
        let b : SubBlock D = record {
          block_offset = block_offset;
          sub_n = sub_end - block_offset;
          output_offset = output_offset;
          gain_steps = steps;
          control = t.control;
        } in
        let (r, out) = render b t in
        let u = apply_at_if (ltb sub_end n) (base + sub_end) r in
        (record u { motion = refresh u.control u.motion }, out)

    -- The slice after the late events.
    unfoldable pub caught_up : ℕ → Slice D → Slice D
    unfolding apply_late refresh
    caught_up from s = let (t, late) = apply_late from s.events s in refresh_if late t

    abbrev pub sub_end_of : ℕ → ℕ → ℕ → Slice D → ℕ
    sub_end_of base n block_offset s =
        find_boundary (fuses n s) base (base + block_offset) n 0 s.events

    -- `while block_offset < n_samples`, on fuel; with the offset that it ends at.
    unfoldable pub sub_blocks : ℕ → ℕ → ℕ → ℕ → ℕ → Slice D → Slice D × ℕ
    unfolding at_boundary caught_up find_boundary
    sub_blocks zero base n block_offset output_offset s = (s, block_offset)
    sub_blocks (suc fuel) base n block_offset output_offset s =
        let t = caught_up (base + block_offset) s in
        let sub_end = sub_end_of base n block_offset t in
        let (u, out) = at_boundary base n block_offset output_offset (fuses n t) sub_end t in
        let rest = sub_blocks fuel base n sub_end out u in
        if ltb block_offset n then rest else (s, block_offset)

    abbrev pub close_if : Bool → Slice D → Slice D
    close_if false s = s
    close_if true s = let t = apply_remaining s.events s in refresh_if (ltb 0 (length s.events)) t

    -- The loop has at most one turn for each sample and each event.
    unfoldable pub process_wet_sub_blocks : Bool → ℕ → ℕ → Slice D → Slice D
    unfolding sub_blocks apply_remaining
    process_wet_sub_blocks is_last_slice base n s =
        close_if is_last_slice (sub_blocks (n + length s.events) base n 0 0 s).0
