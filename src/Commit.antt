-- ===== src/Commit.antt =====
-- src/clap/extensions/state_transaction/commit.rs: how a validated restore becomes the state of the plugin.
--
-- `MainThread` is what the functions read and write of the main thread's state and of the shared state;
-- the host's calls are counted. The static restore counter is a field of it.
pub mod Package
pub mod Publish
pub mod Deliver
pub mod Same
pub mod Delivered
pub mod Staged
pub mod Superseded
pub mod Sample
mod Tests
use nam_plug.Prelude.{ℕ, Bool, Option, List}
use nam_plug.Float.{F32}
use nam_plug.Engine.{Engine, Ring}
use nam_plug.Payload.{ClapParamPayload, LoadModelPayload, RestoreTxn}
use nam_plug.Rollback.{PendingModel}
use nam_plug.Scheduler.{Channel}
use nam_plug.Assets.{Bytes, Disk, Loader, ProcessingParams}

-- The engine's functions on a model, `PathBuf::from`, and whether costs are measured (a build flag).
pub record Models (E : Engine) (K : Disk) : Type 0 where
  pub full_wavenet : E.StaticModel → Option E.StaticModel
  pub memory_footprint : E.StaticModel → ℕ
  pub measure_cost : ℕ → E.StaticModel → E.StaticModel × F32
  pub adaptive_cost_enabled : Bool
  pub path_from : Bytes → K.FilePath
  pub one : F32

module _ {E : Engine} {K : Disk} (L : Loader E K) where
  pub record RestoreModelPublish : Type 0 where
    pub metadata : L.Metadata
    pub info : L.Info
    pub memory_bytes : ℕ
    pub full_wavenet : Option E.StaticModel
    pub model_rate : ℕ

  pub record RestorePublish : Type 0 where
    pub mode_full : Bool
    pub params : ProcessingParams E K
    pub model : Option RestoreModelPublish
    pub model_path_on_disk : Option K.FilePath
    pub model_basename : Option Bytes
    pub model_hash : Option Bytes
    pub model_search_path_to_add : Option K.FilePath
    pub ir_path_on_disk : Option Bytes
    pub ir_hash : Option Bytes
    pub ir_raw_samples : Option (List F32)
    pub ir_raw_sample_rate : ℕ

  pub record StagedRestore : Type 0 where
    pub txn : RestoreTxn E
    pub publish : RestorePublish

  pub record PendingRestore : Type 0 where
    pub generation : ℕ
    pub txn : Option (RestoreTxn E)
    pub publish : RestorePublish
    pub seq : ℕ

  -- What the GUI and the slimmable rebuilds read of the model.
  pub record ModelView : Type 0 where
    pub full_wavenet_model : Option E.StaticModel
    pub ui_model_metadata : Option L.Metadata
    pub ui_model_info : Option L.Info
    pub ui_model_memory_bytes : ℕ
    pub ui_model_name : Bytes
    pub model_sample_rate : ℕ

pub record IrView : Type 0 where
  pub ir_path : Option Bytes
  pub ir_hash : Option Bytes
  pub ir_raw_samples : Option (List F32)
  pub ir_raw_sample_rate : ℕ

-- The parameter atomics of `UiToRt`.
pub record UiToRt : Type 0 where
  pub param_input_gain : ℕ
  pub param_output_gain : ℕ
  pub param_gate_thresh : ℕ
  pub param_bypass : ℕ
  pub param_adaptive_compute : ℕ
  pub param_slim_override : ℕ
  pub param_oversample : ℕ
  pub param_activation : ℕ

pub record StagedSwap (E : Engine) : Type 0 where
  pub model : Option (LoadModelPayload E)
  pub ir : Option (Option E.CabSimPair)

-- The requests to the host.
pub record HostCalls : Type 0 where
  pub restarts : ℕ
  pub callbacks : ℕ
  pub dirty_marks : ℕ
  pub rescans : ℕ

module _ {E : Engine} {K : Disk} (L : Loader E K) (R : Ring (ClapParamPayload E)) where
  pub record MainThread : Type 0 where
    pub params : ProcessingParams E K
    pub model_view : ModelView L
    pub ir_view : IrView
    pub ui_to_rt : UiToRt
    pub ui_generation : ℕ
    pub pending_model : Option (PendingModel E)
    pub model_load_counter : ℕ
    pub model_generation : ℕ
    pub restore_generation : ℕ
    pub pending_restart_os_factor : ℕ
    pub current_stream_latency : ℕ
    pub current_cabsim_latency : ℕ
    pub sample_rate : ℕ
    pub buffer_size : ℕ
    pub staged_swap : Option (StagedSwap E)
    pub staged_restore : Option (StagedRestore L)
    pub pending_restore : Option (PendingRestore L)
    pub cmd_producer : Channel E R
    pub host : HostCalls
