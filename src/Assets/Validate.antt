-- ===== src/Assets/Validate.antt =====
-- src/clap/extensions/state_transaction/validate.rs: every asset of a saved state is found, verified and
-- built before anything is changed.
--
-- `seen` is the disk when a file is verified, `before` when the build hashes it once more, and `after`
-- when it is loaded.
use nam_plug.Prelude.{
  ℕ, Bool, true, false, ◌&&◌, Option, none, some, List, [], ◌∷◌, ◌++◌, ltb, ◌==◌, max,
  if◌then◌else◌,
}
use nam_plug.Float.{F32}
use nam_plug.Engine.{Engine}
use nam_plug.Assets.{
  Bytes, Disk, Files, Stat, Loader, ProcessingParams, PluginError, Result, done, failure, ◌>>=◌,
  ◌>>◌, ensure, ok_or, model_not_found_or_invalid, model_basename_invalid, model_hash_missing,
  model_hash_malformed, model_not_found_portable, model_build_failed, ir_not_found, ir_hash_missing,
  ir_hash_malformed, ir_hash_failed, ir_hash_mismatch, ir_load_failed,
}
use nam_plug.Assets.Digest.{
  compute_file_hash, compute_bytes_hash, read_ir_file_bytes, is_valid_sha256_hex,
  eq_ignore_ascii_case,
}
use nam_plug.Assets.Locate.{sanitize_basename, canonical_search_dirs, resolve_confined_candidate}

pub data RestoreMode : Type 0 where
  full_mode for_preset : RestoreMode

-- `map_err` to one error.
abbrev pub or_error {ℓ} : {A : Type ℓ} → PluginError → Result A → Result A
or_error e (done a) = done a
or_error e (failure f) = failure e

abbrev pub eq_modified : Option ℕ → Option ℕ → Bool
eq_modified none none = true
eq_modified none (some b) = false
eq_modified (some a) none = false
eq_modified (some a) (some b) = a == b

abbrev pub same_stat : Stat → Stat → Bool
same_stat a b = a.len == b.len && eq_modified a.modified b.modified

abbrev pub hash_matches : Result Bytes → Bytes → Bool
hash_matches (done actual) expected = eq_ignore_ascii_case actual expected
hash_matches (failure e) expected = false

module _ {E : Engine} {K : Disk} (L : Loader E K) where
  pub record ModelResources : Type 0 where
    pub model_l : Option E.StaticModel
    pub model_r : Option E.StaticModel
    pub new_resampler : E.Resampler
    pub new_stream : E.Stream
    pub input_mult_adj : F32
    pub output_mult_adj : F32
    pub buffer_size : ℕ
    pub model_rate : ℕ
    pub model_metadata : L.Metadata
    pub model_info : L.Info
    pub model_hash : Bytes

  pub record IrResources : Type 0 where
    pub pair : Option E.CabSimPair
    pub samples : List F32
    pub sample_rate : ℕ

  -- `ModelValidationResult` and `IrValidationResult`.
  pub record FoundModel : Type 0 where
    pub model : Option ModelResources
    pub path_on_disk : Option K.FilePath
    pub basename : Option Bytes
    pub search_path : Option K.FilePath
    pub hash : Option Bytes

  pub record FoundIr : Type 0 where
    pub ir : Option IrResources
    pub path_on_disk : Option Bytes
    pub hash : Option Bytes

  pub record ValidatedRestore : Type 0 where
    pub params : ProcessingParams E K
    pub model : Option ModelResources
    pub model_path_on_disk : Option K.FilePath
    pub model_basename : Option Bytes
    pub model_search_path_to_add : Option K.FilePath
    pub model_hash : Option Bytes
    pub ir : Option IrResources
    pub ir_path_on_disk : Option Bytes
    pub ir_hash : Option Bytes

  -- `set_max_buffer_size` on a channel that is there.
  abbrev pub resize : ℕ → Option E.StaticModel → Result (Option E.StaticModel)
  resize n none = done none
  resize n (some m) =
      if ltb 0 n
      then (ok_or (L.set_max_buffer_size n m) model_build_failed >>= λ r. done (some r))
      else done (some m)

  unfoldable pub build_model_resources :
      Files K → Files K → K.FilePath → ℕ → ℕ → Result ModelResources
  build_model_resources before after path host_rate buffer_size = do
    meta_before ← ok_or (before.metadata path) model_build_failed
    model_hash ← or_error model_build_failed (compute_file_hash K before path)
    pair ← ok_or (L.load_and_build_model after path) model_build_failed
    meta_after ← ok_or (after.metadata path) model_build_failed
    ensure (same_stat meta_after meta_before) model_build_failed
    l ← ok_or pair.model_l model_build_failed
    model_l ← resize buffer_size (some l)
    model_r ← resize buffer_size pair.model_r
    new_resampler ← ok_or (L.new_simple host_rate pair.sample_rate) model_build_failed
    new_stream ←
        ok_or (L.new_stream host_rate pair.sample_rate (max buffer_size 1)) model_build_failed
    done (record {
      model_l = model_l;
      model_r = model_r;
      new_resampler = new_resampler;
      new_stream = new_stream;
      input_mult_adj = pair.input_mult_adj;
      output_mult_adj = pair.output_mult_adj;
      buffer_size = buffer_size;
      model_rate = pair.sample_rate;
      model_metadata = pair.metadata;
      model_info = pair.info;
      model_hash = model_hash;
    })

  abbrev pub no_model : FoundModel
  no_model = record {
    model = none;
    path_on_disk = none;
    basename = none;
    search_path = none;
    hash = none;
  }

  -- What both ways of finding a model do with a verified file.
  unfoldable pub adopt : Files K → Files K → ℕ → ℕ → K.FilePath → Result FoundModel
  unfolding build_model_resources
  adopt before after host_rate buffer_size path = do
    resources ← build_model_resources before after path host_rate buffer_size
    done (record {
      model = some resources;
      path_on_disk = some path;
      basename = K.file_name path;
      search_path = K.parent path;
      hash = some resources.model_hash;
    })

  abbrev pub verified_candidate : Files K → Option K.FilePath → Bytes → Option K.FilePath
  verified_candidate F none expected = none
  verified_candidate F (some candidate) expected =
      if hash_matches (compute_file_hash K F candidate) expected then some candidate else none

  -- `for dir in &search_dirs`: the first directory with a verified candidate decides.
  unfoldable pub search_model : Files K → List K.FilePath → Bytes → Bytes → Option K.FilePath
  search_model F [] clean_basename expected = none
  search_model F (dir ∷ dirs) clean_basename expected =
      elim (verified_candidate F (resolve_confined_candidate K F dir clean_basename) expected) [
        | some candidate ↦ some candidate
        | none ↦ search_model F dirs clean_basename expected
      ]

  abbrev pub search_dirs : Files K → ProcessingParams E K → List K.FilePath
  search_dirs F p = p.model_search_paths ++ canonical_search_dirs K F

  unfoldable pub find_by_basename :
      Files K → Files K → Files K → ProcessingParams E K → ℕ → ℕ → Bytes → Result FoundModel
  unfolding adopt search_model
  find_by_basename seen before after p host_rate buffer_size raw_basename = do
    clean_basename ← ok_or (sanitize_basename raw_basename) model_basename_invalid
    expected_hash ← ok_or p.model_hash model_hash_missing
    ensure (is_valid_sha256_hex expected_hash) model_hash_malformed
    candidate ←
        ok_or (search_model seen (search_dirs seen p) clean_basename expected_hash)
          model_not_found_portable
    adopt before after host_rate buffer_size candidate

  abbrev pub from_basename :
      Files K → Files K → Files K → ProcessingParams E K → ℕ → ℕ → Option Bytes → Result FoundModel
  from_basename seen before after p host_rate buffer_size none = done no_model
  from_basename seen before after p host_rate buffer_size (some raw) =
      find_by_basename seen before after p host_rate buffer_size raw

  unfoldable pub validate_model_from_basename :
      Files K → Files K → Files K → ProcessingParams E K → ℕ → ℕ → Result FoundModel
  unfolding find_by_basename
  validate_model_from_basename seen before after p host_rate buffer_size =
      from_basename seen before after p host_rate buffer_size p.model_basename

  -- `hash_valid`: a saved hash that is missing or malformed never matches.
  abbrev pub saved_hash_valid : Files K → Option Bytes → K.FilePath → Bool
  saved_hash_valid F none path = false
  saved_hash_valid F (some expected) path =
      is_valid_sha256_hex expected && hash_matches (compute_file_hash K F path) expected

  abbrev pub has_basename : Option Bytes → Bool
  has_basename none = false
  has_basename (some b) = true

  abbrev pub from_path :
      Files K
      → Files K
      → Files K
      → ProcessingParams E K
      → ℕ
      → ℕ
      → Option K.FilePath
      → Result FoundModel
  from_path seen before after p host_rate buffer_size none =
      validate_model_from_basename seen before after p host_rate buffer_size
  from_path seen before after p host_rate buffer_size (some path) =
      if seen.exists path && saved_hash_valid seen p.model_hash path
      then adopt before after host_rate buffer_size path
      else if has_basename p.model_basename
      then validate_model_from_basename seen before after p host_rate buffer_size
      else failure model_not_found_or_invalid

  unfoldable pub validate_model_full :
      Files K → Files K → Files K → ProcessingParams E K → ℕ → ℕ → Result FoundModel
  unfolding validate_model_from_basename adopt
  validate_model_full seen before after p host_rate buffer_size =
      from_path seen before after p host_rate buffer_size p.model_path

  abbrev pub partition_of : ℕ → ℕ
  partition_of buffer_size = if ltb 0 buffer_size then buffer_size else 256

  unfoldable pub build_ir_resources_from_bytes : Bytes → ℕ → ℕ → Result IrResources
  build_ir_resources_from_bytes bytes host_rate buffer_size = do
    cabsim ← ok_or (L.load_cabsim bytes host_rate) ir_load_failed
    pair ←
        ok_or (L.build_pair cabsim.samples cabsim.sample_rate (partition_of buffer_size))
          ir_load_failed
    done (record { pair = some pair; samples = cabsim.samples; sample_rate = cabsim.sample_rate })

  unfoldable pub validate_ir_at :
      Files K → ProcessingParams E K → ℕ → ℕ → K.FilePath → Result FoundIr
  unfolding build_ir_resources_from_bytes
  validate_ir_at F p host_rate buffer_size ir_path = do
    ensure (F.exists ir_path) ir_not_found
    expected_hash ← ok_or p.ir_hash ir_hash_missing
    ensure (is_valid_sha256_hex expected_hash) ir_hash_malformed
    ir_bytes ← or_error ir_hash_failed (read_ir_file_bytes K F ir_path)
    ensure (eq_ignore_ascii_case (compute_bytes_hash K ir_bytes) expected_hash) ir_hash_mismatch
    resources ← build_ir_resources_from_bytes ir_bytes host_rate buffer_size
    done (record {
      ir = some resources;
      path_on_disk = some (K.to_string_lossy ir_path);
      hash = some (compute_bytes_hash K ir_bytes);
    })

  abbrev pub ir_from : Files K → ProcessingParams E K → ℕ → ℕ → Option K.FilePath → Result FoundIr
  ir_from F p host_rate buffer_size none =
      done (record { ir = none; path_on_disk = none; hash = none })
  ir_from F p host_rate buffer_size (some path) = validate_ir_at F p host_rate buffer_size path

  unfoldable pub validate_ir : Files K → ProcessingParams E K → ℕ → ℕ → Result FoundIr
  unfolding validate_ir_at
  validate_ir F p host_rate buffer_size = ir_from F p host_rate buffer_size p.ir_path

  abbrev pub validate_model :
      RestoreMode → Files K → Files K → Files K → ProcessingParams E K → ℕ → ℕ → Result FoundModel
  validate_model full_mode = validate_model_full
  validate_model for_preset = validate_model_from_basename

  abbrev pub validated : ProcessingParams E K → FoundModel → FoundIr → ValidatedRestore
  validated p found found_ir = record {
    params = p;
    model = found.model;
    model_path_on_disk = found.path_on_disk;
    model_basename = found.basename;
    model_search_path_to_add = found.search_path;
    model_hash = found.hash;
    ir = found_ir.ir;
    ir_path_on_disk = found_ir.path_on_disk;
    ir_hash = found_ir.hash;
  }

  -- The disk may change between the model's verification, its building, and the impulse response.
  unfoldable pub validate_and_build :
      RestoreMode
      → Files K
      → Files K
      → Files K
      → ProcessingParams E K
      → ℕ
      → ℕ
      → Result ValidatedRestore
  unfolding validate_model_full validate_model_from_basename validate_ir
  validate_and_build mode seen before after p host_rate buffer_size = do
    found ← validate_model mode seen before after p host_rate buffer_size
    found_ir ← validate_ir after p host_rate buffer_size
    done (validated p found found_ir)
