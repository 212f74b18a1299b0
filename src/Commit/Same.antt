-- ===== src/Commit/Same.antt =====
-- src/clap/extensions/state_transaction/commit.rs: the deferred publication shows what a commit at once
-- would have shown.
use nam_plug.Prelude.{◌+◌, ◌%◌, ◌^◌, ◌≡◌, refl, sym, ap, ◌∙◌, Option, none, some}
use nam_plug.Engine.{Engine, Ring}
use nam_plug.Dsp.{Dsp}
use nam_plug.Payload.{ClapParamPayload}
use nam_plug.Assets.{Bytes, Disk, Loader, ProcessingParams}
use nam_plug.Assets.Validate.{
  RestoreMode, full_mode, for_preset, ModelResources, IrResources, ValidatedRestore,
}
use nam_plug.Commit.{Models, MainThread}
use nam_plug.Commit.Package.{
  publication, effective_params, model_publish, is_full, option_map, unwrap_or,
}
use nam_plug.Commit.Publish.{
  publish_restore, local_commit, local_model, local_ir, local_params, publish_model, publish_ir,
  adopt_params, ir_params, store_params, notified,
}

module _ {E : Engine} {K : Disk} (L : Loader E K) (M : Models E K) (D : Dsp E)
    (R : Ring (ClapParamPayload E)) where
  -- What the host, the GUI and a later save read.
  pub record SameView (s t : MainThread L R) : Type 0 where
    pub params : s.params ≡ t.params
    pub model_view : s.model_view ≡ t.model_view
    pub ir_view : s.ir_view ≡ t.ir_view
    pub ui_to_rt : s.ui_to_rt ≡ t.ui_to_rt
    pub ui_generation : s.ui_generation ≡ t.ui_generation
    pub host : s.host ≡ t.host

  -- An impulse response and its path come together.
  abbrev pub Paired : Option (IrResources L) → Option Bytes → Type 0
  Paired none none = Unit
  Paired none (some p) = ⊥
  Paired (some r) none = ⊥
  Paired (some r) (some p) = Unit

  local_ir-frame :
      (mode : RestoreMode) (i : Option (IrResources L)) (path hash : Option Bytes)
      (s : MainThread L R)
      → ((local_ir L M D R mode i path hash s).model_view ≡ s.model_view)
        × ((local_ir L M D R mode i path hash s).ui_generation ≡ s.ui_generation)
        × ((local_ir L M D R mode i path hash s).host ≡ s.host)
  unfolding local_ir
  local_ir-frame mode (some r) path hash s = (refl, refl, refl)
  local_ir-frame full_mode none path hash s = (refl, refl, refl)
  local_ir-frame for_preset none path hash s = (refl, refl, refl)

  local_model-frame :
      (mode : RestoreMode) (m : Option (ModelResources L)) (name : Option Bytes)
      (s : MainThread L R)
      → ((local_model L M D R mode m name s).params ≡ s.params)
        × ((local_model L M D R mode m name s).ir_view ≡ s.ir_view)
        × ((local_model L M D R mode m name s).ui_generation ≡ s.ui_generation)
        × ((local_model L M D R mode m name s).host ≡ s.host)
  unfolding local_model
  local_model-frame mode (some r) name s = (refl, refl, refl, refl)
  local_model-frame full_mode none name s = (refl, refl, refl, refl)
  local_model-frame for_preset none name s = (refl, refl, refl, refl)

  publish_model-local_model :
      (mode : RestoreMode) (m : Option (ModelResources L)) (name : Option Bytes)
      (s : MainThread L R)
      → publish_model L (is_full mode) (option_map (model_publish L M) m) name s.model_view
        ≡ (local_model L M D R mode m name s).model_view
  unfolding local_model publish_model model_publish
  publish_model-local_model mode (some r) name s = refl
  publish_model-local_model full_mode none name s = refl
  publish_model-local_model for_preset none name s = refl

  publish_ir-local_ir :
      (mode : RestoreMode) (i : Option (IrResources L)) (path hash : Option Bytes)
      (s : MainThread L R)
      → Paired i path
      → publish_ir
          (is_full mode)
          path
          hash
          (option_map (λ r. r.samples) i)
          (unwrap_or (option_map (λ r. r.sample_rate) i) 0)
          s.ir_view
        ≡ (local_ir L M D R mode i path hash s).ir_view
  unfolding local_ir publish_ir
  publish_ir-local_ir mode (some r) (some p) hash s h = refl
  publish_ir-local_ir mode (some r) none hash s h = absurd h
  publish_ir-local_ir mode none (some p) hash s h = absurd h
  publish_ir-local_ir full_mode none none hash s h = refl
  publish_ir-local_ir for_preset none none hash s h = refl

  adopt_params-local_ir :
      (mode : RestoreMode) (v : ValidatedRestore L) (i : Option (IrResources L))
      (path hash : Option Bytes) (s : MainThread L R)
      → Paired i path
      → adopt_params
          (is_full mode)
          (effective_params L M mode s.params v.params)
          v.model_path_on_disk
          v.model_basename
          v.model_hash
          v.model_search_path_to_add
          (ir_params M (is_full mode) path hash s.params)
        ≡ adopt_params
            (is_full mode)
            v.params
            v.model_path_on_disk
            v.model_basename
            v.model_hash
            v.model_search_path_to_add
            (local_ir L M D R mode i path hash s).params
  unfolding local_ir adopt_params effective_params
  adopt_params-local_ir full_mode v i path hash s h = refl
  adopt_params-local_ir for_preset v (some r) (some p) hash s h = refl
  adopt_params-local_ir for_preset v (some r) none hash s h = absurd h
  adopt_params-local_ir for_preset v none (some p) hash s h = absurd h
  adopt_params-local_ir for_preset v none none hash s h = refl

  -- Publishing a restore after its acknowledgment and committing it at once, when the plugin is not
  -- activated, leave the same saved parameters, model and impulse response for the GUI, parameter
  -- atomics, generation and requests to the host, from the same state. The impulse response must come
  -- with its path, or neither.
  pub publish_restore-local_commit :
      (mode : RestoreMode) (v : ValidatedRestore L) (s : MainThread L R)
      → Paired v.ir v.ir_path_on_disk
      → SameView
          (publish_restore L M D R (publication L M mode s.params v) s)
          (local_commit L M D R v mode s)
  unfolding publish_restore local_commit publication local_params
  publish_restore-local_commit mode v s h =
      let t = local_model L M D R mode v.model v.model_basename s in
      let (a, b, c, d) = local_model-frame mode v.model v.model_basename s in
      let (x, y, z) = local_ir-frame mode v.ir v.ir_path_on_disk v.ir_hash t in
      let p = adopt_params-local_ir mode v v.ir v.ir_path_on_disk v.ir_hash t h in
      let q = at_params mode v s.params t.params (sym a) ∙ p in
      record {
        params = q;
        model_view = publish_model-local_model mode v.model v.model_basename s ∙ sym x;
        ir_view =
            ap
              (λ w.
                publish_ir (is_full mode) v.ir_path_on_disk v.ir_hash
                  (option_map (λ r. r.samples) v.ir)
                  (unwrap_or (option_map (λ r. r.sample_rate) v.ir) 0) w)
              (sym b)
            ∙ publish_ir-local_ir mode v.ir v.ir_path_on_disk v.ir_hash t h;
        ui_to_rt = ap (λ w. store_params D w.rt) q;
        ui_generation = ap (λ n. (n + 1) % 2 ^ 32) (sym (y ∙ c));
        host = ap notified (sym (z ∙ d));
      }
    where
      at_params :
          (mode : RestoreMode) (v : ValidatedRestore L) (p q : ProcessingParams E K)
          → p ≡ q
          → adopt_params
              (is_full mode)
              (effective_params L M mode p v.params)
              v.model_path_on_disk
              v.model_basename
              v.model_hash
              v.model_search_path_to_add
              (ir_params M (is_full mode) v.ir_path_on_disk v.ir_hash p)
            ≡ adopt_params
                (is_full mode)
                (effective_params L M mode q v.params)
                v.model_path_on_disk
                v.model_basename
                v.model_hash
                v.model_search_path_to_add
                (ir_params M (is_full mode) v.ir_path_on_disk v.ir_hash q)
      at_params mode v p q e = rw e refl
