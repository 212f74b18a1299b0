-- ===== src/State/Again.antt =====
-- src/clap/extensions/state.rs, src/clap/extensions/state_transaction/commit.rs: saving after a restore.
use nam_plug.Prelude.{◌≡◌, refl, false, Option, none, some}
use nam_plug.Engine.{Engine, Ring}
use nam_plug.Dsp.{Dsp}
use nam_plug.Payload.{ClapParamPayload}
use nam_plug.Assets.{Bytes, Disk, Loader}
use nam_plug.Assets.Validate.{for_preset, ModelResources, ValidatedRestore}
use nam_plug.Commit.{Models, ModelView, MainThread}
use nam_plug.Commit.Package.{publication, model_publish, option_map}
use nam_plug.Commit.Publish.{publish_restore, publish_model, adopt_params, ir_params}
use nam_plug.State.Save.{snapshot_params}

module _ {E : Engine} {K : Disk} (L : Loader E K) (M : Models E K) (D : Dsp E)
    (R : Ring (ClapParamPayload E)) where
  shown_metadata :
      (o : Option (ModelResources L)) (name : Option Bytes) (view : ModelView L)
      (m : ModelResources L)
      → o ≡ some m
      → (publish_model L false (option_map (model_publish L M) o) name view).ui_model_metadata
        ≡ some m.model_metadata
  unfolding publish_model model_publish
  shown_metadata none name view m h = cc h
  shown_metadata (some n) name view m h = let k : n ≡ m = cc h in rw (← k) refl

  kept :
      (i h : Option Bytes) (s : MainThread L R)
      → ((ir_params M false i h s.params).model_path ≡ s.params.model_path)
        × ((ir_params M false i h s.params).model_basename ≡ s.params.model_basename)
        × ((ir_params M false i h s.params).model_hash ≡ s.params.model_hash)
  kept none h s = (refl, refl, refl)
  kept (some p) h s = (refl, refl, refl)

  -- After the publication of a preset that brings a model, the metadata that is shown is that of the
  -- preset's model; but the path, the name and the digest of the model that the next save takes are those
  -- from before the publication.
  pub snapshot_params-publish_restore :
      (v : ValidatedRestore L) (m : ModelResources L) (s : MainThread L R)
      → v.model ≡ some m
      → let t = publish_restore L M D R (publication L M for_preset s.params v) s in
        (t.model_view.ui_model_metadata ≡ some m.model_metadata)
        × ((snapshot_params L M R t).params.model_path ≡ s.params.model_path)
        × ((snapshot_params L M R t).params.model_basename ≡ s.params.model_basename)
        × ((snapshot_params L M R t).params.model_hash ≡ s.params.model_hash)
  unfolding publish_restore publication snapshot_params adopt_params
  snapshot_params-publish_restore v m s h =
      let (a, b, c) = kept v.ir_path_on_disk v.ir_hash s in
      (shown_metadata v.model v.model_basename s.model_view m h, a, b, c)
