-- ===== src/State/Round.antt =====
-- src/clap/extensions/state.rs, src/clap/extensions/state_context.rs: what was saved is what is restored.
use nam_plug.Prelude.{
  ◌+◌, ◌≤◌, ◌<◌, ◌≡◌, refl, ap, ◌∙◌, Bool, true, false, Bool-cases, inl, inr, Option, some, List,
  [], ◌∷◌, length, leb, arith,
}
use nam_plug.Engine.{Engine, Ring}
use nam_plug.Dsp.{Dsp}
use nam_plug.Payload.{ClapParamPayload}
use nam_plug.Assets.{
  Bytes, Disk, Files, Loader, ProcessingParams, Result, done, failure, corrupted_envelope,
  stream_too_large, ok_or, >>=-inv, ok_or-some, serialize,
}
use nam_plug.Assets.Validate.{RestoreMode}
use nam_plug.Commit.{Models, MainThread}
use nam_plug.State.{
  Json, Faithful, all_finite, current_state_version, max_state_stream_size, StateContextType,
}
use nam_plug.State.Stream.{Delivers, read_to_end-whole, read_to_end-cut}
use nam_plug.State.Save.{
  ensure_asset_hashes, save_params, is_portable, serialize_envelope, write_all, snapshot_params,
  written, save,
}
use nam_plug.State.Load.{
  load_state, is_filled, mode_of, restore_params, restore_state_transactional, load,
}

module _ {E : Engine} {K : Disk} (J : Json E K) (L : Loader E K) (M : Models E K)
    (R : Ring (ClapParamPayload E)) where
  -- The bytes are the envelope of the parameters that passed the guard.
  pub written-inv :
      (context : StateContextType) (accepts : Bool) (p : ProcessingParams E K) (bytes : Bytes)
      → written L M R J context accepts p ≡ done bytes
      → (u : Unit {0}) × (ensure_asset_hashes (save_params context p) (is_portable context)
          ≡ done u)
        × (J.to_vec current_state_version (save_params context p) ≡ some bytes)
  unfolding written serialize_envelope
  written-inv context accepts p bytes h =
      let (u, a, k) =
        >>=-inv (ensure_asset_hashes (save_params context p) (is_portable context)) _ bytes h in
      let (b, c, w) =
        >>=-inv (ok_or (J.to_vec current_state_version (save_params context p)) serialize) _ bytes
          k in
      (
        u,
        a,
        ok_or-some (J.to_vec current_state_version (save_params context p)) serialize b c
            ∙ ap some (same accepts b w),
      )
    where
      same : (t : Bool) (b : Bytes) → write_all t b ≡ done bytes → b ≡ bytes
      same true b w = cc w
      same false b w = cc w

module _ {E : Engine} {K : Disk} (J : Json E K) (L : Loader E K) (M : Models E K) (D : Dsp E)
    (R : Ring (ClapParamPayload E)) where
  filled :
      (F : Faithful J) (p : ProcessingParams E K) (bytes : Bytes)
      → J.to_vec current_state_version p ≡ some bytes
      → is_filled bytes ≡ true
  filled F p [] h = absurd (F.not_empty current_state_version p h)
  filled F p (b ∷ bs) h = refl

  -- What a load makes of the bytes that were written for the parameters `p`.
  pub data Reloaded (bytes : Bytes) (p : ProcessingParams E K) (restored : Result (MainThread L R))
      : Result (MainThread L R) → Type 0 where
    whole :
        length bytes ≤ max_state_stream_size
        → all_finite p.rt ≡ true
        → Reloaded bytes p restored restored
    null :
        length bytes ≤ max_state_stream_size
        → all_finite p.rt ≡ false
        → Reloaded bytes p restored (failure corrupted_envelope)
    too_long :
        max_state_stream_size < length bytes → Reloaded bytes p restored (failure stream_too_large)

  parsed-Reloaded :
      (F : Faithful J) (b : Bool) (p : ProcessingParams E K) (bytes : Bytes) (mode : RestoreMode)
      (seen before after : Files K) (t : MainThread L R)
      → all_finite p.rt ≡ b
      → length bytes ≤ max_state_stream_size
      → J.to_vec current_state_version p ≡ some bytes
      → Reloaded bytes p
          (restore_params J L M D R mode seen before after p t)
          (restore_state_transactional J L M D R mode seen before after bytes t)
  unfolding restore_state_transactional load_state
  parsed-Reloaded F true p bytes mode seen before after t h l k =
      rw (filled F p bytes k, F.round_trip current_state_version p bytes h k) (whole l h)
  parsed-Reloaded F false p bytes mode seen before after t h l k =
      let (a, b) = F.null current_state_version p bytes h k in
      rw (filled F p bytes k, a, b) (null l h)

  -- A state that a save has written, and that a stream of the host gives back in reads of any sizes, is
  -- restored with the very parameters that the save took from the atomics, those that a preset leaves
  -- out apart: whichever of the two contexts it was written in and is loaded in, and with whatever main
  -- thread it is loaded. There are two exceptions: a state of more than 32 MiB is refused as too large,
  -- and a state in which a gain or the threshold is infinite or a NaN is refused as corrupted.
  pub load-save :
      (F : Faithful J) (context loaded : StateContextType) (accepts : Bool) (s t : MainThread L R)
      (seen before after : Files K) (bytes : Bytes) (input : List (Option Bytes))
      → (save L M R J context accepts s).1 ≡ done bytes
      → Delivers input bytes
      → let p = save_params context (snapshot_params L M R s).params in
        Reloaded bytes p
          (restore_params J L M D R (mode_of loaded) seen before after p t)
          (load J L M D R loaded seen before after input t)
  unfolding save load
  load-save F context loaded accepts s t seen before after bytes input h d =
      let q = (snapshot_params L M R s).params in
      let (u, a, k) = written-inv J L M R context accepts q bytes h in
      elim (Bool-cases (leb (length bytes) max_state_stream_size)) [
        | inl l ↦
            rw (read_to_end-whole (max_state_stream_size + 1) input bytes d (ground (arith, l)), l)
              (parsed-Reloaded F (all_finite (save_params context q).rt) (save_params context q)
                bytes (mode_of loaded) seen before after t refl (ground (arith, l)) k)
        | inr l ↦
            let (r, e, n) =
              read_to_end-cut (max_state_stream_size + 1) input bytes d (ground (arith, l)) in
            let m : leb (length r) max_state_stream_size ≡ false = ground (arith, n) in
            rw (e, m) (too_long (ground (arith, l)))
      ]
