-- ===== src/Commit/Publish.antt =====
-- src/clap/extensions/state_transaction/commit.rs: `publish_restore`, after the audio thread has
-- acknowledged, and `local_commit`, when the plugin is not activated.
use nam_plug.Prelude.{
  ℕ, ◌+◌, ◌%◌, ◌^◌, Bool, true, false, ◌||◌, Option, none, some, List, [], ◌∷◌, ◌++◌, if◌then◌else◌,
}
use nam_plug.Float.{F32}
use nam_plug.Engine.{Engine, Params, Ring}
use nam_plug.Dsp.{Dsp}
use nam_plug.Payload.{ClapParamPayload}
use nam_plug.Rollback.{PendingModel}
use nam_plug.Scheduler.{wrap64}
use nam_plug.Assets.{Bytes, Disk, Loader, ProcessingParams}
use nam_plug.Assets.Validate.{
  RestoreMode, full_mode, for_preset, ModelResources, IrResources, ValidatedRestore,
}
use nam_plug.Commit.{
  Models, RestoreModelPublish, RestorePublish, ModelView, IrView, UiToRt, StagedSwap, HostCalls,
  MainThread,
}
use nam_plug.Commit.Package.{option_map, and_then, unwrap_or, is_full}

abbrev pub bypass_bool_to_u32 : Bool → ℕ
bypass_bool_to_u32 true = 1
bypass_bool_to_u32 false = 0

-- `mark_dirty`, and `rescan` of the values.
abbrev pub notified : HostCalls → HostCalls
notified h = record h { dirty_marks = h.dirty_marks + 1; rescans = h.rescans + 1 }

-- A name is replaced only if there is one.
abbrev pub renamed : Option Bytes → Bytes → Bytes
renamed none name = name
renamed (some basename) name = basename

abbrev pub contains_path : (K : Disk) → K.FilePath → List K.FilePath → Bool
contains_path K p [] = false
contains_path K p (q ∷ qs) = K.eq_path p q || contains_path K p qs

abbrev pub add_search_path : (K : Disk) → Option K.FilePath → List K.FilePath → List K.FilePath
add_search_path K none paths = paths
add_search_path K (some p) paths = if contains_path K p paths then paths else paths ++ (p ∷ [])

module _ {E : Engine} (D : Dsp E) where
  -- The eight stores.
  unfoldable pub store_params : Params E → UiToRt
  store_params p = record {
    param_input_gain = p.input_gain_db;
    param_output_gain = p.output_gain_db;
    param_gate_thresh = p.gate_threshold_db;
    param_bypass = bypass_bool_to_u32 p.bypass;
    param_adaptive_compute = E.adaptive_as p.adaptive_compute;
    param_slim_override = E.slim_as p.slim_override;
    param_oversample = D.factor_to_u32 p.oversample;
    param_activation = E.precision_as p.activation_precision;
  }

module _ {E : Engine} {K : Disk} (L : Loader E K) where
  abbrev pub cleared_view : ModelView L
  cleared_view = record {
    full_wavenet_model = none;
    ui_model_metadata = none;
    ui_model_info = none;
    ui_model_memory_bytes = 0;
    ui_model_name = [];
    model_sample_rate = 48000;
  }

  abbrev pub shown : RestoreModelPublish L → Option Bytes → ModelView L → ModelView L
  shown m basename view = record {
    full_wavenet_model = m.full_wavenet;
    ui_model_metadata = some m.metadata;
    ui_model_info = some m.info;
    ui_model_memory_bytes = m.memory_bytes;
    ui_model_name = renamed basename view.ui_model_name;
    model_sample_rate = m.model_rate;
  }

  unfoldable pub publish_model :
      Bool → Option (RestoreModelPublish L) → Option Bytes → ModelView L → ModelView L
  publish_model mode_full (some m) basename view = shown m basename view
  publish_model true none basename view = cleared_view
  publish_model false none basename view = view

abbrev pub cleared_ir : IrView
cleared_ir = record {
  ir_path = none;
  ir_hash = none;
  ir_raw_samples = none;
  ir_raw_sample_rate = 0;
}

unfoldable pub publish_ir :
    Bool → Option Bytes → Option Bytes → Option (List F32) → ℕ → IrView → IrView
publish_ir mode_full (some path) hash samples rate view = record {
  ir_path = some path;
  ir_hash = hash;
  ir_raw_samples = samples;
  ir_raw_sample_rate = rate;
}
publish_ir true none hash samples rate view = cleared_ir
publish_ir false none hash samples rate view = view

module _ {E : Engine} {K : Disk} (M : Models E K) where
  abbrev pub ir_params :
      Bool → Option Bytes → Option Bytes → ProcessingParams E K → ProcessingParams E K
  ir_params mode_full (some path) hash p = record p {
    ir_path = some (M.path_from path);
    ir_hash = hash;
  }
  ir_params true none hash p = record p { ir_path = none; ir_hash = none }
  ir_params false none hash p = p

module _ {E : Engine} {K : Disk} where
  -- `match mode`, then the identity of the model in a full restore.
  unfoldable pub adopt_params :
      Bool
      → ProcessingParams E K
      → Option K.FilePath
      → Option Bytes
      → Option Bytes
      → Option K.FilePath
      → ProcessingParams E K
      → ProcessingParams E K
  adopt_params true new path basename hash search p = record new {
    model_path = path;
    model_basename = basename;
    model_hash = hash;
    model_search_paths = add_search_path K search new.model_search_paths;
  }
  adopt_params false new path basename hash search p = record p { rt = new.rt }

module _ {E : Engine} {K : Disk} (L : Loader E K) (M : Models E K) (D : Dsp E)
    (R : Ring (ClapParamPayload E)) where
  unfoldable pub publish_restore : RestorePublish L → MainThread L R → MainThread L R
  unfolding publish_model publish_ir adopt_params store_params
  publish_restore p s =
      let params =
        adopt_params p.mode_full p.params p.model_path_on_disk p.model_basename p.model_hash
          p.model_search_path_to_add
          (ir_params M p.mode_full p.ir_path_on_disk p.ir_hash s.params) in
      record s {
        params = params;
        model_view = publish_model L p.mode_full p.model p.model_basename s.model_view;
        ir_view =
            publish_ir p.mode_full p.ir_path_on_disk p.ir_hash p.ir_raw_samples p.ir_raw_sample_rate
              s.ir_view;
        ui_to_rt = store_params D params.rt;
        ui_generation = (s.ui_generation + 1) % 2 ^ 32;
        host = notified s.host;
      }

  unfoldable pub local_pending : ModelResources L → ℕ → PendingModel E
  local_pending r generation = record {
    generation = generation;
    model = r.model_l;
    model_r = r.model_r;
    model_rate = r.model_rate;
    input_mult_adj = r.input_mult_adj;
    output_mult_adj = r.output_mult_adj;
  }

  abbrev pub cleared_pending : ℕ → PendingModel E
  cleared_pending generation = record {
    generation = generation;
    model = none;
    model_r = none;
    model_rate = 48000;
    input_mult_adj = M.one;
    output_mult_adj = M.one;
  }

  -- The model's part of `local_commit`.
  unfoldable pub local_model :
      RestoreMode → Option (ModelResources L) → Option Bytes → MainThread L R → MainThread L R
  unfolding local_pending
  local_model mode (some r) basename s = record s {
    model_view = record {
      full_wavenet_model = and_then r.model_l M.full_wavenet;
      ui_model_metadata = some r.model_metadata;
      ui_model_info = some r.model_info;
      ui_model_memory_bytes = unwrap_or (option_map M.memory_footprint r.model_l) 0;
      ui_model_name = renamed basename s.model_view.ui_model_name;
      model_sample_rate = r.model_rate;
    };
    pending_model = some (local_pending r (wrap64 (s.model_generation + 1)));
    model_generation = wrap64 (s.model_generation + 1);
    model_load_counter = s.model_load_counter + 1;
  }
  local_model full_mode none basename s = record s {
    model_view = cleared_view L;
    pending_model = some (cleared_pending (wrap64 (s.model_generation + 1)));
    model_generation = wrap64 (s.model_generation + 1);
  }
  local_model for_preset none basename s = s

  -- `get_or_insert_with(StagedSwap::default)`.
  abbrev pub staged_or_default : Option (StagedSwap E) → StagedSwap E
  staged_or_default none = record { model = none; ir = none }
  staged_or_default (some staged) = staged

  abbrev pub stage_ir : Option E.CabSimPair → Option (StagedSwap E) → Option (StagedSwap E)
  stage_ir none staged = staged
  stage_ir (some pair) staged = some (record (staged_or_default staged) { ir = some (some pair) })

  unfoldable pub local_ir :
      RestoreMode
      → Option (IrResources L)
      → Option Bytes
      → Option Bytes
      → MainThread L R
      → MainThread L R
  local_ir mode (some r) path hash s = record s {
    staged_swap = stage_ir r.pair s.staged_swap;
    ir_view = record {
      ir_path = path;
      ir_hash = hash;
      ir_raw_samples = some r.samples;
      ir_raw_sample_rate = r.sample_rate;
    };
    params = record s.params { ir_path = option_map M.path_from path; ir_hash = hash };
  }
  local_ir full_mode none path hash s = record s {
    staged_swap = some (record (staged_or_default s.staged_swap) { ir = some none });
    ir_view = cleared_ir;
    params = record s.params { ir_path = none; ir_hash = none };
  }
  local_ir for_preset none path hash s = s

  unfoldable pub local_params : RestoreMode → ValidatedRestore L → MainThread L R → MainThread L R
  unfolding adopt_params store_params
  local_params mode v s =
      let params =
        adopt_params (is_full mode) v.params v.model_path_on_disk v.model_basename v.model_hash
          v.model_search_path_to_add s.params in
      record s {
        params = params;
        ui_to_rt = store_params D params.rt;
        ui_generation = (s.ui_generation + 1) % 2 ^ 32;
        host = notified s.host;
      }

  unfoldable pub local_commit : ValidatedRestore L → RestoreMode → MainThread L R → MainThread L R
  unfolding local_model local_ir local_params
  local_commit v mode s =
      local_params mode v (
        local_ir mode v.ir v.ir_path_on_disk v.ir_hash
          (local_model mode v.model v.model_basename s))
