-- ===== src/State/Resave.antt =====
-- src/clap/extensions/state.rs, src/clap/extensions/state_transaction/commit.rs: a restored state can be
-- saved again.
use nam_plug.Prelude.{
  ℕ, ◌<◌, ◌≡◌, refl, sym, ap, ◌∙◌, true, false, Option, none, some, List, length, All,
}
use nam_plug.Float.{F32}
use nam_plug.Engine.{Engine, Ring}
use nam_plug.Dsp.{Dsp}
use nam_plug.Payload.{ClapParamPayload}
use nam_plug.Assets.{
  Bytes, Disk, Files, Loader, ProcessingParams, Result, done, failure, ◌>>=◌, ◌>>◌, ensure,
  model_hash_missing, model_hash_malformed, ir_hash_missing, ir_hash_malformed,
}
use nam_plug.Assets.Validate.{full_mode, ValidatedRestore, validate_and_build}
use nam_plug.Commit.{Models, IrView, MainThread}
use nam_plug.Commit.Package.{publication, option_map, unwrap_or}
use nam_plug.Commit.Publish.{publish_restore, publish_ir, adopt_params, local_commit}
use nam_plug.Commit.Same.{SameView, publish_restore-local_commit}
use nam_plug.State.Save.{
  hash_if, well_formed_if, unless_portable, hash_of_path, ensure_asset_hashes, snapshot_params,
}
use nam_plug.State.Sound.{
  SoundModel, no_asset, digest, SoundIr, no_ir, ir_digest, validate_and_build-Sound,
}

hash_if-some {ℓ} :
    {A : Type ℓ} (e : nam_plug.Assets.PluginError) (o : Option A) (h : Bytes)
    → hash_if e o (some h) ≡ done tt
hash_if-some e none h = refl
hash_if-some e (some a) h = refl

module _ {A B : Type 0} where
  ensured :
      (path : Option A) (name hash : Option Bytes) (ir : Option B) (ir_hash : Option Bytes)
      → SoundModel path name hash
      → SoundIr ir ir_hash
      → (unless_portable false
            (hash_if model_hash_missing path hash >> hash_if ir_hash_missing ir ir_hash)
          >> (hash_if model_hash_missing name hash
              >> (well_formed_if model_hash_malformed hash
                  >> well_formed_if ir_hash_malformed ir_hash)))
        ≡ done tt
  ensured _ _ _ _ _ no_asset no_ir = refl
  ensured _ _ _ _ _ no_asset (ir_digest x h v) = rw v refl
  ensured _ _ _ _ _ (digest path name g w) no_ir =
      rw (hash_if-some model_hash_missing path g, hash_if-some model_hash_missing name g, w) refl
  ensured _ _ _ _ _ (digest path name g w) (ir_digest x h v) =
      rw (hash_if-some model_hash_missing path g, hash_if-some model_hash_missing name g, w, v) refl

module _ {E : Engine} {K : Disk} (L : Loader E K) (M : Models E K) (D : Dsp E)
    (R : Ring (ClapParamPayload E)) where
  -- The impulse response that a snapshot takes is the one that was published.
  taken :
      (path hash : Option Bytes) (samples : Option (List F32)) (rate : ℕ) (view : IrView)
      → SoundIr path hash
      → let t = publish_ir true path hash samples rate view in
        SoundIr (option_map M.path_from t.ir_path) (hash_of_path t.ir_path t.ir_hash)
  unfolding publish_ir
  taken _ _ samples rate view no_ir = no_ir
  taken _ _ samples rate view (ir_digest path h v) = ir_digest (M.path_from path) h v

  ensure_asset_hashes-publish_restore :
      (v : ValidatedRestore L) (s : MainThread L R)
      → SoundModel v.model_path_on_disk v.model_basename v.model_hash
      → SoundIr v.ir_path_on_disk v.ir_hash
      → ensure_asset_hashes
          (snapshot_params L M R
            (publish_restore L M D R (publication L M full_mode s.params v) s)).params
          false
        ≡ done tt
  unfolding ensure_asset_hashes snapshot_params publish_restore publication adopt_params
  ensure_asset_hashes-publish_restore v s m i =
      ensured v.model_path_on_disk v.model_basename v.model_hash _ _ m (
        taken v.ir_path_on_disk v.ir_hash (option_map (λ r. r.samples) v.ir)
          (unwrap_or (option_map (λ r. r.sample_rate) v.ir) 0) s.ir_view i)

  same_guard :
      (s t : MainThread L R)
      → SameView L M D R s t
      → ensure_asset_hashes (snapshot_params L M R s).params false
        ≡ ensure_asset_hashes (snapshot_params L M R t).params false
  unfolding ensure_asset_hashes snapshot_params
  same_guard s t v = ap (λ q. guarded q s.ir_view) v.params ∙ ap (λ w. guarded t.params w) v.ir_view
    where
      guarded : ProcessingParams E K → IrView → Result (Unit {0})
      guarded q w =
          ensure_asset_hashes
            (record q {
              ir_path = option_map M.path_from w.ir_path;
              ir_hash = hash_of_path w.ir_path w.ir_hash;
            })
            false

  -- After a whole state has been validated and restored, whether it is published on the acknowledgment
  -- or committed at once while the plugin is not activated, the guard of a save lets the snapshot
  -- pass: every asset that is kept has a digest, which is well-formed, given that SHA-256 has 32 bytes.
  pub ensure_asset_hashes-restored :
      (seen before after : Files K) (p : ProcessingParams E K) (r b : ℕ) (v : ValidatedRestore L)
      (s : MainThread L R)
      → ((b : Bytes) → (length (K.sha256 b) ≡ 32) × All (λ x. x < 256) (K.sha256 b))
      → validate_and_build L full_mode seen before after p r b ≡ done v
      → (ensure_asset_hashes
            (snapshot_params L M R
              (publish_restore L M D R (publication L M full_mode s.params v) s)).params
            false
          ≡ done tt)
        × (ensure_asset_hashes
              (snapshot_params L M R (local_commit L M D R v full_mode s)).params
              false
            ≡ done tt)
  ensure_asset_hashes-restored seen before after p r b v s sha h =
      let (m, i, q) = validate_and_build-Sound L sha M D R seen before after p r b v h in
      let e = ensure_asset_hashes-publish_restore v s m i in
      (e, sym (same_guard _ _ (publish_restore-local_commit L M D R full_mode v s q)) ∙ e)
