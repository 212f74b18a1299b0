-- ===== src/Blocks.antt =====
-- src/clap/processor/dsp/orchestrator.rs and src/clap/processor/dsp/orchestrator/worker.rs: how a block of
-- audio is cut at the host's events.
--
-- `Control` is what the events write and nothing else does; `Motion` is what the rendering of a sub-block
-- moves on. Rendering itself (`process_sub_block`, with the engine's pipeline) is a parameter.
pub mod Event
pub mod Cut
pub mod Settled
pub mod Progress
pub mod Tiling
pub mod Schedule
mod Tests
use nam_plug.Prelude.{ℕ, Bool, true, false, List, ◌==◌, ◌&&◌, ◌||◌, not, if◌then◌else◌}
use nam_plug.Float.{F32}
use nam_plug.Engine.{Engine, Params}
use nam_plug.Dsp.{Dsp}
use nam_plug.Commit.{UiToRt}

pub record ScheduledEvent : Type 0 where
  pub time : ℕ
  pub param_id : ℕ
  pub value : F32
  pub is_mod : Bool

pub record GainStep : Type 0 where
  pub offset : ℕ
  pub target : F32
  pub is_input : Bool

pub record GainTarget : Type 0 where
  pub is_input : Bool
  pub target : F32

pub record BypassCrossfader : Type 0 where
  pub target : Bool
  pub active : Bool
  pub mix : F32
  pub step : F32
  pub remaining : ℕ

abbrev pub bypass_xfade_samples : ℕ
bypass_xfade_samples = 64

-- The bits of 1/64 and -1/64.
abbrev pub bypass_xfade_inv : F32
bypass_xfade_inv = 1015021568

abbrev pub minus_bypass_xfade_inv : F32
minus_bypass_xfade_inv = 3162505216

abbrev pub new_crossfader : Bool → BypassCrossfader
new_crossfader initial_bypass = record {
  target = initial_bypass;
  active = false;
  mix = if initial_bypass then 0 else 1065353216;
  step = 0;
  remaining = 0;
}

abbrev pub eq_bool : Bool → Bool → Bool
eq_bool true b = b
eq_bool false b = not b

unfoldable pub trigger : Bool → BypassCrossfader → BypassCrossfader
trigger target x = if eq_bool x.target target then x else record x {
  target = target;
  active = true;
  remaining = bypass_xfade_samples;
  step = if target then minus_bypass_xfade_inv else bypass_xfade_inv;
}

module _ {E : Engine} (D : Dsp E) where
  pub record Control : Type 0 where
    pub params : Params E
    pub ui_to_rt : UiToRt
    pub mod_input_gain : F32
    pub mod_output_gain : F32
    pub mod_gate_thresh : F32
    pub buffer_size : ℕ
    pub pending_restart_os_factor : ℕ
    pub requested_os_factor : ℕ
    pub needs_os_rebuild : Bool
    pub activation_tls : E.Precision

  -- The smoothers are their targets.
  pub record Motion : Type 0 where
    pub smoother_in : F32
    pub smoother_out : F32
    pub adaptive_compute : D.Controller
    pub gate_dirty : Bool
    pub threshold_open_sq : F32
    pub threshold_close_sq : F32
    pub threshold_open_db : F32
    pub threshold_close_db : F32
    pub bypass_xfade : BypassCrossfader

  -- What a sub-block is rendered with.
  pub record SubBlock : Type 0 where
    pub block_offset : ℕ
    pub sub_n : ℕ
    pub output_offset : ℕ
    pub gain_steps : List GainStep
    pub control : Control

  -- `process_sub_block`: what it leaves, and how many samples it puts out; and two operations on `f32`.
  pub record Render : Type 0 where
    pub process_sub_block : SubBlock → Motion → Motion
    pub n_out : SubBlock → Motion → ℕ
    pub minus_six : F32 → F32
    pub square : F32 → F32

  -- The processor while a slice is processed: `events` are those from `event_idx` on, and `sub_blocks`
  -- are the calls of `process_sub_block` so far.
  pub record Slice : Type 0 where
    pub control : Control
    pub motion : Motion
    pub events : List ScheduledEvent
    pub timing_anomaly : Bool
    pub sub_blocks : List SubBlock
