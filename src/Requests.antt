-- ===== src/Requests.antt =====
-- src/clap/plugin/main_thread/housekeeping.rs: the pipeline of model load requests, from the file
-- dialog and the preset-load extension (src/clap/extensions/preset_load.rs) to the loader's result.
--
-- Main-thread code and the worker's publication are single steps. The loads themselves are outcomes
-- that the environment gives; a commit is an entry of a log, and so is what the
-- host is told. The error message for the GUI is left out.
pub mod Housekeeping
pub mod Account
pub mod Load
pub mod Accept
pub mod Answered
mod Tests
use nam_plug.Prelude.{ℕ, Bool, Option, List}

-- Paths, what identifies a preset (location and load key), models and diagnostics.
pub record Loading : Type 1 where
  pub PathBuf : Type 0
  pub Preset : Type 0
  pub PreparedModel : Type 0
  pub NamDiagnostic : Type 0
  pub eq_path : PathBuf → PathBuf → Bool
  pub dialog_cancelled_sentinel : PathBuf
  pub dialog_timedout_sentinel : PathBuf

pub data ModelRequestOrigin (T : Loading) : Type 0 where
  gui : ModelRequestOrigin T
  preset : T.Preset → ModelRequestOrigin T

pub record PendingModelRequest (T : Loading) : Type 0 where
  pub path : T.PathBuf
  pub origin : ModelRequestOrigin T

pub record ModelLoaderJob (T : Loading) : Type 0 where
  pub path : T.PathBuf
  pub origin : ModelRequestOrigin T
  pub generation : ℕ
  pub sample_rate : ℕ
  pub buffer_size : ℕ

pub data Outcome (T : Loading) : Type 0 where
  prepared : T.PreparedModel → Outcome T
  failed_load : T.NamDiagnostic → Outcome T

pub record PreparedModelResult (T : Loading) : Type 0 where
  pub generation : ℕ
  pub origin : ModelRequestOrigin T
  pub outcome : Outcome T

pub data Notice (T : Loading) : Type 0 where
  notify_preset_loaded : T.Preset → Notice T
  notify_preset_error : T.Preset → Notice T

abbrev pub max_pending_model_requests : ℕ
max_pending_model_requests = 16

pub record Pipeline (T : Loading) : Type 0 where
  pub pending_model_requests : List (PendingModelRequest T)
  pub pending_async_loads : List (ModelLoaderJob T)
  pub model_worker_busy : Bool
  pub dispatched_model_generation : ℕ
  pub dispatched_model_is_gui : Bool
  pub model_loader : Bool
  pub in_worker : Option (ModelLoaderJob T)
  pub model_result_slot : Option (PreparedModelResult T)
  pub model_generation : ℕ
  pub dialog_state : Option T.PathBuf
  pub ui_dialog_open : Bool
  pub ui_loading : Bool
  pub callbacks : ℕ
  pub committed : List (T.PreparedModel × ℕ)
  pub notices : List (Notice T)

-- What the environment decides when a job is dispatched.
pub record Attempt (T : Loading) : Type 0 where
  pub sample_rate : ℕ
  pub buffer_size : ℕ
  pub is_finished : Bool
  pub spawns : Bool
  pub accepts : Bool
  pub sync_outcome : Outcome T
