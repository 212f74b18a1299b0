-- ===== src/State.antt =====
-- src/clap/extensions/state.rs and src/clap/extensions/state_transaction.rs: how the plugin's state is
-- written to a stream of the host, and restored from one.
--
-- JSON (the crate `serde_json`) is a parameter; a stream is what successive reads return, and whether a
-- write succeeds is given from outside.
pub mod Save
pub mod Load
pub mod Stream
pub mod Round
pub mod Accepting
pub mod Restored
pub mod Identity
pub mod Again
pub mod Sound
pub mod Resave
mod Sample
mod Tests
use nam_plug.Prelude.{ℕ, ◌≡◌, ◌≢◌, Bool, true, false, ◌&&◌, Option, none, some, [], ◌*◌}
use nam_plug.Float.{is_finite}
use nam_plug.Engine.{Engine, RtParams}
use nam_plug.Assets.{Bytes, Disk, ProcessingParams}

-- `from_slice` and `to_vec`; `has_version` says whether a value has the key, if it is JSON at all.
pub record Json (E : Engine) (K : Disk) : Type 0 where
  pub to_vec : ℕ → ProcessingParams E K → Option Bytes
  pub envelope_from : Bytes → Option (ℕ × ProcessingParams E K)
  pub has_version : Bytes → Option Bool
  pub params_from : Bytes → Option (ProcessingParams E K)

-- None of the three gains is infinite or a NaN.
abbrev pub all_finite : {A S F P : Type 0} → RtParams A S F P → Bool
all_finite p =
    is_finite p.input_gain_db && (is_finite p.output_gain_db && is_finite p.gate_threshold_db)

-- What was written is read back, and is not empty; but an `f32` that is infinite or a NaN is written as
-- `null`, which is not read as an `f32`, so that the envelope is then a value with a version and no more.
pub record Faithful {E : Engine} {K : Disk} (J : Json E K) : Type 0 where
  pub round_trip :
      (v : ℕ) (p : ProcessingParams E K) (bytes : Bytes)
      → all_finite p.rt ≡ true
      → J.to_vec v p ≡ some bytes
      → J.envelope_from bytes ≡ some (v, p)
  pub null :
      (v : ℕ) (p : ProcessingParams E K) (bytes : Bytes)
      → all_finite p.rt ≡ false
      → J.to_vec v p ≡ some bytes
      → (J.envelope_from bytes ≡ none) × (J.has_version bytes ≡ some true)
  pub not_empty : (v : ℕ) (p : ProcessingParams E K) → J.to_vec v p ≢ some []

abbrev pub current_state_version : ℕ
current_state_version = 1

abbrev pub max_state_stream_size : ℕ
max_state_stream_size = 32 * 1024 * 1024

-- `StateContextType`: for a preset, or for a project or a duplicate.
pub data StateContextType : Type 0 where
  preset_context full_context : StateContextType
