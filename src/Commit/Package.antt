-- ===== src/Commit/Package.antt =====
-- src/clap/extensions/state_transaction/commit.rs: `build_restore_package`.
use nam_plug.Prelude.{ℕ, ◌+◌, min, max, Bool, true, false, Option, none, some, if◌then◌else◌}
use nam_plug.Float.{F32}
use nam_plug.Engine.{Engine, Ring}
use nam_plug.Payload.{ClapParamPayload, LoadModelPayload, RestoreTxn}
use nam_plug.Scheduler.{wrap64}
use nam_plug.Assets.{
  Disk, Loader, ProcessingParams, Result, done, ◌>>=◌, ok_or, clear_model_resampler_failed,
  clear_model_stream_failed,
}
use nam_plug.Assets.Validate.{
  RestoreMode, full_mode, for_preset, ModelResources, IrResources, ValidatedRestore,
}
use nam_plug.Commit.{Models, RestoreModelPublish, RestorePublish, MainThread}

abbrev pub prewarm_measure_frames : ℕ
prewarm_measure_frames = 256

abbrev pub option_map {ℓ κ} : {A : Type ℓ} {B : Type κ} → (A → B) → Option A → Option B
option_map f none = none
option_map f (some a) = some (f a)

abbrev pub and_then {ℓ κ} : {A : Type ℓ} {B : Type κ} → Option A → (A → Option B) → Option B
and_then none f = none
and_then (some a) f = f a

abbrev pub unwrap_or {ℓ} : {A : Type ℓ} → Option A → A → A
unwrap_or none d = d
unwrap_or (some a) d = a

abbrev pub is_full : RestoreMode → Bool
is_full full_mode = true
is_full for_preset = false

module _ {E : Engine} {K : Disk} (L : Loader E K) (M : Models E K) where
  -- A preset replaces the eight parameters and keeps the assets that are named.
  unfoldable pub effective_params :
      RestoreMode → ProcessingParams E K → ProcessingParams E K → ProcessingParams E K
  effective_params full_mode current validated = validated
  effective_params for_preset current validated = record current { rt = validated.rt }

  unfoldable pub model_publish : ModelResources L → RestoreModelPublish L
  model_publish r = record {
    metadata = r.model_metadata;
    info = r.model_info;
    memory_bytes = unwrap_or (option_map M.memory_footprint r.model_l) 0;
    full_wavenet = and_then r.model_l M.full_wavenet;
    model_rate = r.model_rate;
  }

  -- Measuring runs the model.
  unfoldable pub measured : ℕ → Option E.StaticModel → Option E.StaticModel × Option F32
  measured frames none = (none, none)
  measured frames (some m) =
      if M.adaptive_cost_enabled
      then (some (M.measure_cost frames m).0, some (M.measure_cost frames m).1)
      else (some m, none)

  -- The component and the generation counter that it leaves.
  unfoldable pub load_component : ModelResources L → ℕ → LoadModelPayload E × ℕ
  unfolding measured
  load_component r generation =
      let (model_l, cost) = measured (min prewarm_measure_frames (max r.buffer_size 1)) r.model_l in
      (
        record {
          generation = wrap64 (generation + 1);
          model_l = model_l;
          model_r = r.model_r;
          new_resampler = r.new_resampler;
          new_stream = r.new_stream;
          model_rate = r.model_rate;
          input_mult_adj = r.input_mult_adj;
          output_mult_adj = r.output_mult_adj;
          prewarm_cost_ns = cost;
        },
        wrap64 (generation + 1),
      )

  unfoldable pub clear_component : ℕ → ℕ → ℕ → Result (LoadModelPayload E × ℕ)
  clear_component host_rate buffer_size generation = do
    new_resampler ← ok_or (L.new_simple host_rate 48000) clear_model_resampler_failed
    new_stream ← ok_or (L.new_stream host_rate 48000 (max buffer_size 1)) clear_model_stream_failed
    done (
      record {
        generation = wrap64 (generation + 1);
        model_l = none;
        model_r = none;
        new_resampler = new_resampler;
        new_stream = new_stream;
        model_rate = 48000;
        input_mult_adj = M.one;
        output_mult_adj = M.one;
        prewarm_cost_ns = none;
      },
      wrap64 (generation + 1),
    )

  unfoldable pub model_component :
      RestoreMode → ℕ → ℕ → Option (ModelResources L) → ℕ → Result (Option (LoadModelPayload E) × ℕ)
  unfolding load_component clear_component
  model_component mode host_rate buffer_size (some r) generation =
      let (p, g) = load_component r generation in done (some p, g)
  model_component full_mode host_rate buffer_size none generation =
      clear_component host_rate buffer_size generation >>= λ (p, g). done (some p, g)
  model_component for_preset host_rate buffer_size none generation = done (none, generation)

  unfoldable pub ir_component : RestoreMode → Option (IrResources L) → Option (Option E.CabSimPair)
  ir_component mode (some r) = some r.pair
  ir_component full_mode none = some none
  ir_component for_preset none = none

  unfoldable pub publication :
      RestoreMode → ProcessingParams E K → ValidatedRestore L → RestorePublish L
  unfolding effective_params model_publish
  publication mode current v = record {
    mode_full = is_full mode;
    params = effective_params mode current v.params;
    model = option_map model_publish v.model;
    model_path_on_disk = v.model_path_on_disk;
    model_basename = v.model_basename;
    model_hash = v.model_hash;
    model_search_path_to_add = v.model_search_path_to_add;
    ir_path_on_disk = v.ir_path_on_disk;
    ir_hash = v.ir_hash;
    ir_raw_samples = option_map (λ r. r.samples) v.ir;
    ir_raw_sample_rate = unwrap_or (option_map (λ r. r.sample_rate) v.ir) 0;
  }

  module _ (R : Ring (ClapParamPayload E)) where
    -- With the main thread whose counters have advanced; an error leaves them.
    unfoldable pub build_restore_package :
        ValidatedRestore L
        → RestoreMode
        → ℕ
        → MainThread L R
        → Result (RestorePublish L × RestoreTxn E × MainThread L R)
    unfolding model_component ir_component publication
    build_restore_package v mode host_rate s =
        model_component mode host_rate s.buffer_size v.model s.model_generation
        >>= λ (component, generation). done (
          publication mode s.params v,
          record {
            generation = wrap64 (s.restore_generation + 1);
            model = component;
            ir = ir_component mode v.ir;
            params = (effective_params mode s.params v.params).rt;
          },
          record s {
            model_generation = generation;
            restore_generation = wrap64 (s.restore_generation + 1);
          },
        )
