-- ===== src/Blocks/Tests.antt =====
-- A slice of 64 samples with a change of gain and the bypass switched on, on the sample engine.
use nam_plug.Prelude.{
  ◌+◌, ◌≤◌, ◌≡◌, refl, true, false, some, none, List, [], ◌∷◌, ◌++◌, length, arith,
}
use nam_plug.Samples.{engine, dsp}
use nam_plug.Commit.Sample.{idle}
use nam_plug.Blocks.{ScheduledEvent, new_crossfader, SubBlock, Render, Slice}
use nam_plug.Blocks.Event.{apply_all}
use nam_plug.Blocks.Cut.{max_scheduled_events, sub_blocks, process_wet_sub_blocks}
use nam_plug.Blocks.Settled.{process_wet_sub_blocks-settled}
use nam_plug.Blocks.Progress.{Sorted}
use nam_plug.Blocks.Tiling.{Tiles, sub_blocks-cover}
use nam_plug.Blocks.Schedule.{
  InputEvent, param_value, param_mod, unknown, schedule_input_events, schedule_input_events-InOrder,
}

abbrev silent : Render dsp
silent = record {
  process_sub_block = λ b m. m;
  n_out = λ b m. b.sub_n;
  minus_six = λ x. x;
  square = λ x. x;
}

abbrev input : List InputEvent
input =
    param_value 3 (some 0) 0 ∷ unknown ∷ param_value 5 (some 3) 1065353216 ∷ param_mod 9 none 0 ∷ []

abbrev two_events : List ScheduledEvent
two_events =
    record { time = 3; param_id = 0; value = 0; is_mod = false }
    ∷ record { time = 5; param_id = 3; value = 1065353216; is_mod = false }
    ∷ []

scheduled : (schedule_input_events input).events ≡ two_events
unfolding schedule_input_events
scheduled = refl

abbrev slice : Slice dsp
slice = record {
  control = record {
    params = engine.default;
    ui_to_rt = idle.ui_to_rt;
    mod_input_gain = 0;
    mod_output_gain = 0;
    mod_gate_thresh = 0;
    buffer_size = 64;
    pending_restart_os_factor = 0;
    requested_os_factor = 0;
    needs_os_rebuild = false;
    activation_tls = false;
  };
  motion = record {
    smoother_in = 0;
    smoother_out = 0;
    adaptive_compute = 0;
    gate_dirty = false;
    threshold_open_sq = 0;
    threshold_close_sq = 0;
    threshold_open_db = 0;
    threshold_close_db = 0;
    bypass_xfade = new_crossfader false;
  };
  events = two_events;
  timing_anomaly = false;
  sub_blocks = [];
}

process_wet_sub_blocks-settled_example :
    let t = process_wet_sub_blocks dsp silent 8192 true true 0 64 slice in
    let u = process_wet_sub_blocks dsp silent 8192 true false 0 64 slice in
    (t.events ≡ [])
    × (t.control ≡ apply_all dsp two_events slice.control)
    × (apply_all dsp u.events u.control ≡ apply_all dsp two_events slice.control)
process_wet_sub_blocks-settled_example =
    process_wet_sub_blocks-settled dsp silent 8192 true 0 64 slice

in_order : true ≡ true → Sorted two_events
in_order h = (omega arith, tt)

sub_blocks-cover_example :
    let r = sub_blocks dsp silent 8192 true (64 + length two_events) 0 64 0 0 slice in
    (r.1 ≡ 64)
    × (new : List (SubBlock dsp)) × (r.0.sub_blocks ≡ [] ++ new)
    × Tiles dsp silent 0 64 new
sub_blocks-cover_example = sub_blocks-cover dsp silent 8192 true 0 64 slice in_order

schedule_input_events-InOrder_example :
    let s = schedule_input_events input in
    (s.sorted ≡ true → Sorted s.events) × (length s.events ≤ max_scheduled_events)
schedule_input_events-InOrder_example = schedule_input_events-InOrder input
