-- ===== src/State/Tests.antt =====
-- Saves and loads on the sample engine and disk, with the sample JSON library.
use nam_plug.Prelude.{
  ℕ, zero, suc, ◌<◌, ◌≡◌, refl, ◌*◌, ◌^◌, true, false, Option, none, some, List, [], ◌∷◌, take, All,
  arith,
}
use nam_plug.Float.{is_finite}
use nam_plug.Samples.{dsp}
use nam_plug.Assets.{Bytes, done, failure, corrupted_envelope, model_not_found_portable}
use nam_plug.Assets.Locate.{sanitize_basename, canonical_search_dirs, resolve_confined_candidate}
use nam_plug.Assets.Digest.{is_valid_sha256_hex, read_to_end, compute_file_hash, read_ir_file_bytes}
use nam_plug.Assets.Sample.{repeat, files, loader, digest, saved_params, restored}
use nam_plug.Assets.Validate.{full_mode, for_preset, ModelResources, validate_and_build}
use nam_plug.Commit.{MainThread}
use nam_plug.Commit.Sample.{ring, costs, idle}
use nam_plug.Commit.Package.{publication}
use nam_plug.Commit.Publish.{publish_restore, local_commit}
use nam_plug.State.{preset_context, full_context}
use nam_plug.State.Save.{ensure_asset_hashes, save_params, snapshot_params, save}
use nam_plug.State.Load.{mode_of, restore_params, load}
use nam_plug.State.Stream.{Delivers}
use nam_plug.State.Round.{Reloaded, load-save}
use nam_plug.State.Identity.{Explained, load-save-Accepting}
use nam_plug.State.Again.{snapshot_params-publish_restore}
use nam_plug.State.Resave.{ensure_asset_hashes-restored}
use nam_plug.State.Sample.{packed, json, json-Faithful}

-- A full save of a main thread whose model is named `m`.
abbrev named : MainThread loader ring
named = record idle {
  params = record saved_params {
    model_basename = some (b'm' ∷ []);
    model_search_paths = [];
    ir_path = none;
    ir_hash = none;
  };
}

abbrev blob : Bytes
blob = packed 1 (snapshot_params loader costs ring named).params.rt b'm' digest

saved : (save loader costs ring json full_context true named).1 ≡ done blob
unfolding save ensure_asset_hashes is_valid_sha256_hex is_finite
saved = refl

abbrev rest_of : Bytes → Bytes
rest_of (a ∷ b ∷ c ∷ rest) = rest
rest_of bytes = []

-- The host gives the bytes back in two reads.
abbrev two_reads : List (Option Bytes)
two_reads = some (take 3 blob) ∷ some (rest_of blob) ∷ []

delivered : Delivers two_reads blob
delivered = (rest_of blob, refl, ([], refl, refl))

load-save_example :
    Reloaded json loader costs dsp ring blob
      (save_params full_context (snapshot_params loader costs ring named).params)
      (restore_params json loader costs dsp ring
        (mode_of preset_context)
        files
        files
        files
        (save_params full_context (snapshot_params loader costs ring named).params)
        idle)
      (load json loader costs dsp ring preset_context files files files two_reads idle)
load-save_example =
    load-save json loader costs dsp ring json-Faithful full_context preset_context true named idle
      files files files blob two_reads saved delivered

-- With an infinite gain.
abbrev loud : MainThread loader ring
loud = record named { ui_to_rt = record named.ui_to_rt { param_input_gain = 255 * 2 ^ 23 } }

saved_loud : (save loader costs ring json full_context true loud).1 ≡ done (0 ∷ [])
unfolding save ensure_asset_hashes is_valid_sha256_hex is_finite
saved_loud = refl

loaded_loud :
    load json loader costs dsp ring full_context files files files (some (0 ∷ []) ∷ []) idle
    ≡ failure corrupted_envelope
unfolding load read_to_end
loaded_loud = refl

-- No directory is known, so the model is not found.
refused :
    load json loader costs dsp ring full_context files files files two_reads idle
    ≡ failure model_not_found_portable
unfolding load read_to_end validate_and_build sanitize_basename is_valid_sha256_hex
    canonical_search_dirs
refused = refl

load-save-Accepting_example :
    Explained json loader costs dsp ring blob
      (save_params full_context (snapshot_params loader costs ring named).params)
      model_not_found_portable
load-save-Accepting_example =
    load-save-Accepting json loader costs dsp ring json-Faithful full_context full_context true
      named idle files files files blob two_reads model_not_found_portable saved delivered refused

abbrev sample_model : ModelResources loader
sample_model = record {
  model_l = some 1;
  model_r = none;
  new_resampler = 2;
  new_stream = 64;
  input_mult_adj = 0;
  output_mult_adj = 0;
  buffer_size = 64;
  model_rate = 44100;
  model_metadata = 0;
  model_info = 0;
  model_hash = digest;
}

snapshot_params-publish_restore_example :
    let t =
      publish_restore loader costs dsp ring
        (publication loader costs for_preset idle.params restored)
        idle in
    (t.model_view.ui_model_metadata ≡ some 0)
    × ((snapshot_params loader costs ring t).params.model_path ≡ idle.params.model_path)
    × ((snapshot_params loader costs ring t).params.model_basename ≡ idle.params.model_basename)
    × ((snapshot_params loader costs ring t).params.model_hash ≡ idle.params.model_hash)
snapshot_params-publish_restore_example =
    snapshot_params-publish_restore loader costs dsp ring restored sample_model idle refl

zeros-All : (n : ℕ) → All (λ x. x < 256) (repeat n 0)
zeros-All zero = tt
zeros-All (suc n) = (omega arith, zeros-All n)

restored_whole :
    validate_and_build loader full_mode files files files saved_params 48000 64 ≡ done restored
unfolding validate_and_build sanitize_basename is_valid_sha256_hex resolve_confined_candidate
    compute_file_hash read_ir_file_bytes
restored_whole = refl

ensure_asset_hashes-restored_example :
    (ensure_asset_hashes
        (snapshot_params loader costs ring (
          publish_restore loader costs dsp ring
            (publication loader costs full_mode idle.params restored)
            idle)).params
        false
      ≡ done tt)
    × (ensure_asset_hashes
          (snapshot_params loader costs ring
            (local_commit loader costs dsp ring restored full_mode idle)).params
          false
        ≡ done tt)
ensure_asset_hashes-restored_example =
    ensure_asset_hashes-restored loader costs dsp ring files files files saved_params 48000 64
      restored idle (λ b. (refl, zeros-All 32)) restored_whole
