-- ===== src/State/Load.antt =====
-- src/clap/extensions/state.rs, src/clap/extensions/state_context.rs and
-- src/clap/extensions/state_transaction.rs: loading.
use nam_plug.Prelude.{ℕ, ◌+◌, Bool, true, false, Option, none, some, List, [], ◌∷◌, length, leb}
use nam_plug.Engine.{Engine, Ring}
use nam_plug.Dsp.{Dsp}
use nam_plug.Payload.{ClapParamPayload}
use nam_plug.Assets.{
  Bytes, Disk, Files, Loader, ProcessingParams, Result, done, failure, ◌>>=◌, ◌>>◌, ensure,
  empty_buffer, stream_too_large, corrupted_envelope, deserialize, read_stream,
}
use nam_plug.Assets.Digest.{read_to_end}
use nam_plug.Assets.Validate.{RestoreMode, full_mode, for_preset, or_error, validate_and_build}
use nam_plug.Commit.{Models, MainThread}
use nam_plug.Commit.Deliver.{host_rate_of, commit}
use nam_plug.State.{Json, max_state_stream_size, StateContextType, preset_context, full_context}

module _ {E : Engine} {K : Disk} (J : Json E K) where
  -- Version 0 has no field that a later version reads differently.
  unfoldable pub migrate : ℕ → ProcessingParams E K → ProcessingParams E K
  migrate version p = p

  -- `value.get("version").is_some()`.
  abbrev pub is_versioned : Option Bool → Bool
  is_versioned none = false
  is_versioned (some b) = b

  abbrev pub unversioned : Bool → Option (ProcessingParams E K) → Result (ProcessingParams E K)
  unversioned true o = failure corrupted_envelope
  unversioned false none = failure deserialize
  unversioned false (some p) = done (migrate 0 p)

  abbrev pub parsed : Option (ℕ × ProcessingParams E K) → Bytes → Result (ProcessingParams E K)
  parsed (some (version, p)) buffer = done (migrate version p)
  parsed none buffer = unversioned (is_versioned (J.has_version buffer)) (J.params_from buffer)

  unfoldable pub load_state : Bytes → Result (ProcessingParams E K)
  unfolding migrate
  load_state buffer = parsed (J.envelope_from buffer) buffer

-- `buffer.is_empty()`.
abbrev pub is_filled : Bytes → Bool
is_filled [] = false
is_filled (b ∷ bs) = true

abbrev pub mode_of : StateContextType → RestoreMode
mode_of preset_context = for_preset
mode_of full_context = full_mode

module _ {E : Engine} {K : Disk} (J : Json E K) (L : Loader E K) (M : Models E K) (D : Dsp E)
    (R : Ring (ClapParamPayload E)) where
  -- From the parameters on.
  unfoldable pub restore_params :
      RestoreMode
      → Files K
      → Files K
      → Files K
      → ProcessingParams E K
      → MainThread L R
      → Result (MainThread L R)
  restore_params mode seen before after p s = do
    v ←
        validate_and_build L mode seen before after p (host_rate_of L M D R s.sample_rate)
          s.buffer_size
    commit L M D R v mode s

  unfoldable pub restore_state_transactional :
      RestoreMode → Files K → Files K → Files K → Bytes → MainThread L R → Result (MainThread L R)
  unfolding load_state restore_params
  restore_state_transactional mode seen before after buffer s = do
    ensure (is_filled buffer) empty_buffer
    p ← load_state J buffer
    restore_params mode seen before after p s

  -- `PluginStateContextImpl::load`; `PluginStateImpl::load` is the same in the full context.
  unfoldable pub load :
      StateContextType
      → Files K
      → Files K
      → Files K
      → List (Option Bytes)
      → MainThread L R
      → Result (MainThread L R)
  unfolding restore_state_transactional
  load context seen before after input s = do
    buffer ← or_error read_stream (read_to_end (max_state_stream_size + 1) input)
    ensure (leb (length buffer) max_state_stream_size) stream_too_large
    restore_state_transactional (mode_of context) seen before after buffer s
