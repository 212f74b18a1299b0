-- ===== src/Assets.antt =====
-- The assets that a saved state names: what the plugin takes from the operating system and the engine
-- to find, hash and load them, and the errors that a restore ends with.
--
-- A restore reads the disk several times; `Files` is what it holds at one moment, so that a file that
-- changes meanwhile is two values of `Files`. A path is a path of Unix.
pub mod Digest
pub mod Digits
pub mod Locate
pub mod Confined
pub mod Validate
pub mod Verified
pub mod Accepted
pub mod Sample
mod Tests
use nam_plug.Prelude.{ℕ, ◌≡◌, refl, Bool, true, false, Option, none, some, List}
use nam_plug.Float.{F32}
use nam_plug.Engine.{Engine, Params}

abbrev pub Bytes : Type 0
Bytes = List ℕ

-- Paths of std, and SHA-256 of the crate `sha2`.
pub record Disk : Type 1 where
  pub FilePath : Type 0
  pub join : FilePath → Bytes → FilePath
  pub starts_with : FilePath → FilePath → Bool
  pub file_name : FilePath → Option Bytes
  pub parent : FilePath → Option FilePath
  pub eq_path : FilePath → FilePath → Bool
  pub to_string_lossy : FilePath → Bytes
  pub sha256 : Bytes → Bytes

pub record Stat : Type 0 where
  pub is_file : Bool
  pub len : ℕ
  pub modified : Option ℕ

-- `none` stands for an error of the operating system; `open_file` gives what successive reads return.
pub record Files (K : Disk) : Type 0 where
  pub home : Option K.FilePath
  pub is_dir : K.FilePath → Bool
  pub exists : K.FilePath → Bool
  pub canonicalize : K.FilePath → Option K.FilePath
  pub metadata : K.FilePath → Option Stat
  pub open_file : K.FilePath → Option (List (Option Bytes))

-- What the engine's loader builds from a model file, and from the bytes of an impulse response.
pub record ModelPair (E : Engine) (Metadata Info : Type 0) : Type 0 where
  pub model_l : Option E.StaticModel
  pub model_r : Option E.StaticModel
  pub sample_rate : ℕ
  pub input_mult_adj : F32
  pub output_mult_adj : F32
  pub metadata : Metadata
  pub info : Info

pub record CabSimIr : Type 0 where
  pub samples : List F32
  pub sample_rate : ℕ

pub record Loader (E : Engine) (K : Disk) : Type 1 where
  pub Metadata : Type 0
  pub Info : Type 0
  pub load_and_build_model : Files K → K.FilePath → Option (ModelPair E Metadata Info)
  pub set_max_buffer_size : ℕ → E.StaticModel → Option E.StaticModel
  pub new_simple : ℕ → ℕ → Option E.Resampler
  pub new_stream : ℕ → ℕ → ℕ → Option E.Stream
  pub load_cabsim : Bytes → ℕ → Option CabSimIr
  pub build_pair : List F32 → ℕ → ℕ → Option E.CabSimPair

pub record ProcessingParams (E : Engine) (K : Disk) : Type 0 where
  pub rt : Params E
  pub model_path : Option K.FilePath
  pub model_basename : Option Bytes
  pub model_hash : Option Bytes
  pub model_search_paths : List K.FilePath
  pub ir_path : Option K.FilePath
  pub ir_hash : Option Bytes

pub data PluginError : Type 0 where
  empty_buffer stream_too_large corrupted_envelope deserialize : PluginError
  serialize write_stream read_stream : PluginError
  hash_metadata_failed hash_target_not_regular_file hash_file_too_large hash_open_failed :
      PluginError
  hash_read_failed hash_stream_too_large : PluginError
  model_not_found_or_invalid model_basename_invalid model_hash_missing model_hash_malformed :
      PluginError
  model_not_found_portable model_build_failed : PluginError
  ir_not_found ir_hash_missing ir_hash_malformed ir_hash_failed ir_hash_mismatch : PluginError
  ir_load_failed clear_model_resampler_failed clear_model_stream_failed : PluginError

pub data Result {ℓ} (A : Type ℓ) : Type ℓ where
  done : A → Result A
  failure : PluginError → Result A

infixl 5 ◌>>=◌ ◌>>◌
abbrev pub ◌>>=◌ {ℓ κ} : {A : Type ℓ} {B : Type κ} → Result A → (A → Result B) → Result B
done a >>= f = f a
failure e >>= f = failure e

abbrev pub ◌>>◌ {ℓ} : {B : Type ℓ} → Result (Unit {0}) → Result B → Result B
m >> k = m >>= λ _. k

-- A guard with its error, and `ok_or`.
abbrev pub ensure : Bool → PluginError → Result (Unit {0})
ensure true e = done tt
ensure false e = failure e

abbrev pub ok_or {ℓ} : {A : Type ℓ} → Option A → PluginError → Result A
ok_or (some a) e = done a
ok_or none e = failure e

-- What a successful step says of its parts.
pub >>=-inv {ℓ κ} :
    {A : Type ℓ} {B : Type κ} (m : Result A) (f : A → Result B) (b : B)
    → (m >>= f) ≡ done b
    → (a : A) × (m ≡ done a) × (f a ≡ done b)
>>=-inv (done a) f b h = (a, refl, h)
>>=-inv (failure e) f b h = cc h

pub ensure-true : (t : Bool) (e : PluginError) (u : Unit {0}) → ensure t e ≡ done u → t ≡ true
ensure-true true e u h = refl
ensure-true false e u h = cc h

pub ok_or-some {ℓ} :
    {A : Type ℓ} (o : Option A) (e : PluginError) (a : A) → ok_or o e ≡ done a → o ≡ some a
ok_or-some none e a h = cc h
ok_or-some (some x) e a h = cc h
