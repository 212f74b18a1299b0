-- ===== src/State/Identity.antt =====
-- src/clap/extensions/state.rs: the guard of a save, against what a restore refuses.
use mathlib.Core.Path.{subst}
use nam_plug.Prelude.{◌<◌, ◌≡◌, refl, Bool, true, false, Option, none, some, List, length}
use nam_plug.Engine.{Engine, Ring}
use nam_plug.Dsp.{Dsp}
use nam_plug.Payload.{ClapParamPayload}
use nam_plug.Assets.{
  Bytes, Disk, Files, Loader, ProcessingParams, PluginError, Result, done, failure,
  corrupted_envelope, stream_too_large, ◌>>◌, >>=-inv, ensure-true, model_hash_missing,
  model_hash_malformed, ir_hash_missing, ir_hash_malformed,
}
use nam_plug.Assets.Digest.{is_valid_sha256_hex}
use nam_plug.Commit.{Models, MainThread}
use nam_plug.State.{
  Json, Faithful, all_finite, max_state_stream_size, StateContextType, preset_context, full_context,
}
use nam_plug.State.Save.{
  hash_if, well_formed_if, ensure_asset_hashes, save_params, is_portable, preset_params,
  snapshot_params, save,
}
use nam_plug.State.Load.{mode_of, restore_params, load}
use nam_plug.State.Stream.{Delivers}
use nam_plug.State.Accepting.{is_refusal, Accepting, Identity}
use nam_plug.State.Restored.{restore_params-Accepting}
use nam_plug.State.Round.{Reloaded, whole, null, too_long, written-inv, load-save}

hash_if-some {ℓ} :
    {A : Type ℓ} (e : PluginError) (o : Option A) (hash : Option Bytes) (u : Unit {0})
    → hash_if e o hash ≡ done u
    → (a : A) → o ≡ some a
    → (h : Bytes) × (hash ≡ some h)
hash_if-some e none hash u h a k = cc k
hash_if-some e (some b) none u h a k = cc h
hash_if-some e (some b) (some x) u h a k = (x, refl)

well_formed_if-valid :
    (e : PluginError) (o : Option Bytes) (u : Unit {0}) (h : Bytes)
    → well_formed_if e o ≡ done u
    → o ≡ some h
    → is_valid_sha256_hex h ≡ true
well_formed_if-valid e none u h a k = cc k
well_formed_if-valid e (some x) u h a k =
    let j : x ≡ h = cc k in rw (← j) (ensure-true (is_valid_sha256_hex x) e u a)

module _ {E : Engine} {K : Disk} where
  -- What the guard lets pass names no asset without its digest.
  pub ensure_asset_hashes-Identity :
      (context : StateContextType) (p : ProcessingParams E K) (u : Unit {0})
      → ensure_asset_hashes (save_params context p) (is_portable context) ≡ done u
      → Identity (save_params context p)
  unfolding ensure_asset_hashes preset_params
  ensure_asset_hashes-Identity preset_context p u h =
      let (u0, a0, h0) = >>=-inv (hash_if model_hash_missing p.model_basename p.model_hash) _ u h in
      let (u1, a1, h1) = >>=-inv (well_formed_if model_hash_malformed p.model_hash) _ u h0 in
      record {
        by_basename = λ b k.
            let (x, e) = hash_if-some model_hash_missing p.model_basename p.model_hash u0 a0 b k in
            (x, e, well_formed_if-valid model_hash_malformed p.model_hash u1 x a1 e);
        by_ir_path = λ x k. cc k;
      }
  ensure_asset_hashes-Identity full_context p u h =
      let (u2, a2, h2) =
        >>=-inv
          (hash_if model_hash_missing p.model_path p.model_hash
            >> hash_if ir_hash_missing p.ir_path p.ir_hash)
          _ u h in
      let (u3, a3, h3) = >>=-inv (hash_if model_hash_missing p.model_path p.model_hash) _ u2 a2 in
      let (u0, a0, h0) =
        >>=-inv (hash_if model_hash_missing p.model_basename p.model_hash) _ u h2 in
      let (u1, a1, h1) = >>=-inv (well_formed_if model_hash_malformed p.model_hash) _ u h0 in
      record {
        by_basename = λ b k.
            let (x, e) = hash_if-some model_hash_missing p.model_basename p.model_hash u0 a0 b k in
            (x, e, well_formed_if-valid model_hash_malformed p.model_hash u1 x a1 e);
        by_ir_path = λ b k.
            let (x, e) = hash_if-some ir_hash_missing p.ir_path p.ir_hash u2 h3 b k in
            (x, e, well_formed_if-valid ir_hash_malformed p.ir_hash u x h1 e);
      }

module _ {E : Engine} {K : Disk} (J : Json E K) (L : Loader E K) (M : Models E K) (D : Dsp E)
    (R : Ring (ClapParamPayload E)) where
  -- Why a load of the bytes that were written for the parameters `p` may fail.
  pub data Explained (bytes : Bytes) (p : ProcessingParams E K) : PluginError → Type 0 where
    of_an_asset : {e : PluginError} → is_refusal e ≡ false → Explained bytes p e
    of_null : all_finite p.rt ≡ false → Explained bytes p corrupted_envelope
    of_length : max_state_stream_size < length bytes → Explained bytes p stream_too_large

  explained :
      (bytes : Bytes) (p : ProcessingParams E K) (restored r : Result (MainThread L R))
      (e : PluginError)
      → Reloaded J L M D R bytes p restored r
      → Accepting restored
      → r ≡ failure e
      → Explained bytes p e
  explained bytes p restored _ e (whole l h) a q = of_an_asset (a e q)
  explained bytes p restored _ e (null l h) a q =
      let k : corrupted_envelope ≡ e = cc q in subst (λ x. Explained bytes p x) k (of_null h)
  explained bytes p restored _ e (too_long l) a q =
      let k : stream_too_large ≡ e = cc q in subst (λ x. Explained bytes p x) k (of_length l)

  -- A state that a save has written, and that a stream of the host gives back in reads of any sizes, is
  -- refused as a state in two cases only: it has more than 32 MiB, or a gain or the threshold in it is
  -- infinite or a NaN. Any other failure of the load is not that the stream is empty, unreadable, too
  -- long or cannot be parsed, nor that a digest is missing or malformed. What remains is that an asset
  -- is not found, differs, or cannot be built.
  pub load-save-Accepting :
      (F : Faithful J) (context loaded : StateContextType) (accepts : Bool) (s t : MainThread L R)
      (seen before after : Files K) (bytes : Bytes) (input : List (Option Bytes)) (e : PluginError)
      → (save L M R J context accepts s).1 ≡ done bytes
      → Delivers input bytes
      → load J L M D R loaded seen before after input t ≡ failure e
      → Explained bytes (save_params context (snapshot_params L M R s).params) e
  unfolding save
  load-save-Accepting F context loaded accepts s t seen before after bytes input e h d q =
      let p = (snapshot_params L M R s).params in
      let (u, a, k) = written-inv J L M R context accepts p bytes h in
      explained bytes (save_params context p)
        (restore_params J L M D R (mode_of loaded) seen before after (save_params context p) t)
        (load J L M D R loaded seen before after input t) e
        (load-save J L M D R F context loaded accepts s t seen before after bytes input h d)
        (restore_params-Accepting J L M D R (mode_of loaded) seen before after
          (save_params context p) t (ensure_asset_hashes-Identity context p u a))
        q
