-- ===== src/Commit/Sample.antt =====
-- A main thread at rest on the sample engine, and the engine's functions on a model.
use nam_plug.Prelude.{true, none, some, []}
use nam_plug.Engine.{Ring}
use nam_plug.Payload.{ClapParamPayload}
use nam_plug.Samples.{engine, list_ring, engine-RoundTrips}
use nam_plug.Scheduler.Trace.{initial}
use nam_plug.Assets.Sample.{disk, loader, saved_params}
use nam_plug.Commit.{Models, MainThread}
use nam_plug.Commit.Publish.{cleared_view, cleared_ir}

abbrev pub ring : Ring (ClapParamPayload engine)
ring = list_ring 2

abbrev pub costs : Models engine disk
costs = record {
  full_wavenet = λ m. some m;
  memory_footprint = λ m. 1000;
  measure_cost = λ n m. (m, n);
  adaptive_cost_enabled = true;
  path_from = λ p. p;
  one = 1065353216;
}

abbrev pub idle : MainThread loader ring
idle = record {
  params = record saved_params { model_basename = none; ir_path = none };
  model_view = cleared_view loader;
  ir_view = cleared_ir;
  ui_to_rt = record {
    param_input_gain = 0;
    param_output_gain = 0;
    param_gate_thresh = 0;
    param_bypass = 0;
    param_adaptive_compute = 0;
    param_slim_override = 0;
    param_oversample = 0;
    param_activation = 0;
  };
  ui_generation = 4;
  pending_model = none;
  model_load_counter = 0;
  model_generation = 1;
  restore_generation = 0;
  pending_restart_os_factor = 0;
  current_stream_latency = 0;
  current_cabsim_latency = 0;
  sample_rate = 48000;
  buffer_size = 64;
  staged_swap = none;
  staged_restore = none;
  pending_restore = none;
  cmd_producer = (initial ring engine-RoundTrips []).chan;
  host = record { restarts = 0; callbacks = 0; dirty_marks = 0; rescans = 0 };
}
