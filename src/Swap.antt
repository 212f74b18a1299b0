-- ===== src/Swap.antt =====
-- src/clap/processor/events.rs and src/clap/processor/params.rs: how the audio thread installs or
-- discards a command (`ClapCommandSwapHandler`), and rebuilt slimmable models
-- (`SlimmableSwapHandler`).
--
-- `Processor` holds the fields that the handlers borrow. `u32` sums wrap as in a release build. The
-- garbage queue is the list of what was retired, the oldest first; what a `GcSink` does with an item
-- is the engine's. `inject_rt_status` hands a telemetry handle to a model and leaves no trace here.
pub mod Apply
pub mod Handler
pub mod Resources
pub mod Frame
pub mod Latency
pub mod Restore
mod Tests
use nam_plug.Prelude.{ℕ, ◌+◌, ◌%◌, ◌^◌, Bool, Option, none, some, List}
use nam_plug.Float.{F32}
use nam_plug.Engine.{Engine, Params}
use nam_plug.Dsp.{Dsp}

pub data GcItem (E : Engine) : Type 0 where
  model : E.StaticModel → GcItem E
  resampler : E.Resampler → GcItem E
  streaming : E.Stream → GcItem E
  oversample : E.OversampleEngine → GcItem E
  cab_sim_pair : E.CabSimPair → GcItem E

-- The atomics of `NamClapShared` that the handlers read or write, and the runtime status flags.
pub record Shared : Type 0 where
  pub sample_rate : ℕ
  pub buffer_size : ℕ
  pub pending_restart_os_factor : ℕ
  pub current_stream_latency : ℕ
  pub current_cabsim_latency : ℕ
  pub cabsim_tail_samples : ℕ
  pub last_reported_tail_samples : ℕ
  pub last_applied_generation : ℕ
  pub cmd_last_ack : ℕ
  pub slimmable_stale_discarded_total : ℕ
  pub requested_os_factor : ℕ
  pub needs_os_rebuild : Bool
  pub host_contract_violation : Bool

pub record Processor {E : Engine} (D : Dsp E) : Type 0 where
  pub model_l : Option E.StaticModel
  pub model_r : Option E.StaticModel
  pub model_generation : ℕ
  pub resampler : E.Resampler
  pub stream : E.Stream
  pub os_l : E.OversampleEngine
  pub os_r : E.OversampleEngine
  pub cabsim_pair : Option E.CabSimPair
  pub params : Params E
  pub applied_os_factor : E.Factor
  pub model_input_mult_adj : F32
  pub model_output_mult_adj : F32
  pub adaptive_compute : D.Controller
  pub cached_effective_latency : ℕ
  pub dry_capacity : ℕ
  pub dry_delay : ℕ
  pub smoother_in : F32
  pub smoother_out : F32
  pub mod_input_gain : F32
  pub mod_output_gain : F32
  pub gate_dirty : Bool
  pub prewarm_pending : Bool
  pub prewarm_cost_ns_per_sample : Option F32
  pub prewarm_zero_budget_count : ℕ
  pub activation_tls : E.Precision
  pub shared : Shared
  pub gc : List (GcItem E)
  pub tail_changes : ℕ
  pub resolved : ℕ

abbrev pub wrap32 : ℕ → ℕ
wrap32 n = n % 2 ^ 32
