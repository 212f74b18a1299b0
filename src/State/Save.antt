-- ===== src/State/Save.antt =====
-- src/clap/extensions/state.rs and src/clap/extensions/state_context.rs: saving, and `snapshot_params` of
-- src/clap/plugin/main_thread/mod.rs.
use nam_plug.Prelude.{ℕ, Bool, true, false, not, Option, none, some, ◌==◌}
use nam_plug.Float.{u32_as_f32}
use nam_plug.Engine.{Engine, Params, Ring}
use nam_plug.Payload.{ClapParamPayload}
use nam_plug.Assets.{
  Bytes, Disk, Loader, ProcessingParams, PluginError, Result, done, failure, ◌>>=◌, ◌>>◌, ensure,
  ok_or, model_hash_missing, model_hash_malformed, ir_hash_missing, ir_hash_malformed, serialize,
  write_stream,
}
use nam_plug.Assets.Digest.{is_valid_sha256_hex}
use nam_plug.Commit.{Models, UiToRt, MainThread}
use nam_plug.Commit.Package.{option_map}
use nam_plug.State.{Json, current_state_version, StateContextType, preset_context, full_context}

-- `hash.is_none()` is an error when the asset is there.
abbrev pub hash_if {ℓ} : {A : Type ℓ} → PluginError → Option A → Option Bytes → Result (Unit {0})
hash_if e none hash = done tt
hash_if e (some a) none = failure e
hash_if e (some a) (some hash) = done tt

abbrev pub well_formed_if : PluginError → Option Bytes → Result (Unit {0})
well_formed_if e none = done tt
well_formed_if e (some hash) = ensure (is_valid_sha256_hex hash) e

-- The tests of the absolute paths, which a portable state does not have.
abbrev pub unless_portable : Bool → Result (Unit {0}) → Result (Unit {0})
unless_portable true r = done tt
unless_portable false r = r

abbrev pub bypass_u32_to_bool : ℕ → Bool
bypass_u32_to_bool raw = not (raw == 0)

-- A digest without a path is stale.
abbrev pub hash_of_path {ℓ} : {A : Type ℓ} → Option A → Option Bytes → Option Bytes
hash_of_path none hash = none
hash_of_path (some path) hash = hash

abbrev pub is_portable : StateContextType → Bool
is_portable preset_context = true
is_portable full_context = false

-- `write_all`, with what was written.
abbrev pub write_all : Bool → Bytes → Result Bytes
write_all true bytes = done bytes
write_all false bytes = failure write_stream

module _ (E : Engine) where
  -- The parameters as the atomics have them.
  unfoldable pub atomic_params : UiToRt → Params E
  unfolding u32_as_f32
  atomic_params ui = record {
    input_gain_db = ui.param_input_gain;
    output_gain_db = ui.param_output_gain;
    gate_threshold_db = ui.param_gate_thresh;
    bypass = bypass_u32_to_bool ui.param_bypass;
    adaptive_compute = E.adaptive_from (u32_as_f32 ui.param_adaptive_compute);
    slim_override = E.slim_from (u32_as_f32 ui.param_slim_override);
    oversample = E.factor_from (u32_as_f32 ui.param_oversample);
    activation_precision = E.precision_from (u32_as_f32 ui.param_activation);
  }

module _ {E : Engine} {K : Disk} where
  unfoldable pub ensure_asset_hashes : ProcessingParams E K → Bool → Result (Unit {0})
  ensure_asset_hashes p portable = do
    unless_portable portable (
        hash_if model_hash_missing p.model_path p.model_hash
        >> hash_if ir_hash_missing p.ir_path p.ir_hash)
    hash_if model_hash_missing p.model_basename p.model_hash
    well_formed_if model_hash_malformed p.model_hash
    well_formed_if ir_hash_malformed p.ir_hash

  -- What a preset leaves out.
  unfoldable pub preset_params : ProcessingParams E K → ProcessingParams E K
  preset_params p = record p { model_path = none; ir_path = none; ir_hash = none }

  abbrev pub save_params : StateContextType → ProcessingParams E K → ProcessingParams E K
  save_params preset_context p = preset_params p
  save_params full_context p = p

  unfoldable pub serialize_envelope : Json E K → ProcessingParams E K → Result Bytes
  serialize_envelope J p = ok_or (J.to_vec current_state_version p) serialize

module _ {E : Engine} {K : Disk} (L : Loader E K) (M : Models E K)
    (R : Ring (ClapParamPayload E)) where
  unfoldable pub snapshot_params : MainThread L R → MainThread L R
  unfolding atomic_params
  snapshot_params s = record s {
    params = record s.params {
      rt = atomic_params E s.ui_to_rt;
      ir_path = option_map M.path_from s.ir_view.ir_path;
      ir_hash = hash_of_path s.ir_view.ir_path s.ir_view.ir_hash;
    };
  }

  -- The bytes for parameters that have been read.
  unfoldable pub written : Json E K → StateContextType → Bool → ProcessingParams E K → Result Bytes
  unfolding ensure_asset_hashes preset_params serialize_envelope
  written J context accepts p = do
    ensure_asset_hashes (save_params context p) (is_portable context)
    bytes ← serialize_envelope J (save_params context p)
    write_all accepts bytes

  -- `PluginStateContextImpl::save`; `PluginStateImpl::save` is the same in the full context.
  unfoldable pub save :
      Json E K → StateContextType → Bool → MainThread L R → MainThread L R × Result Bytes
  unfolding snapshot_params written
  save J context accepts s =
      (snapshot_params s, written J context accepts (snapshot_params s).params)
