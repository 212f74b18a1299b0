-- ===== src/Swap/Frame.antt =====
-- What `apply_params_from_spsc` of src/clap/processor/params.rs changes, and what it leaves alone.
use nam_plug.Prelude.{ℕ, ◌≡◌, refl, ap, ◌∙◌, Bool, Option, if_keeps}
use nam_plug.Engine.{Engine, Params}
use nam_plug.Dsp.{Dsp}
use nam_plug.Swap.{Shared, Processor}
use nam_plug.Swap.Apply.{
  sanitized, take_over, follow_adaptive, follow_slim, follow_oversample, follow_activation,
  follow_gate, request_oversample, apply_oversample, apply_params_from_spsc,
}

pub record Untouched (E : Engine) : Type 0 where
  pub stream : E.Stream
  pub os_l : E.OversampleEngine
  pub cabsim_pair : Option E.CabSimPair
  pub model_l : Option E.StaticModel
  pub model_r : Option E.StaticModel
  pub model_generation : ℕ
  pub cached : ℕ
  pub dry : ℕ
  pub dry_capacity : ℕ
  pub stream_part : ℕ
  pub cabsim_part : ℕ
  pub tail_part : ℕ
  pub violation : Bool

module _ {E : Engine} (D : Dsp E) where
  abbrev pub untouched : Processor D → Untouched E
  untouched s = record {
    stream = s.stream;
    os_l = s.os_l;
    cabsim_pair = s.cabsim_pair;
    model_l = s.model_l;
    model_r = s.model_r;
    model_generation = s.model_generation;
    cached = s.cached_effective_latency;
    dry = s.dry_delay;
    dry_capacity = s.dry_capacity;
    stream_part = s.shared.current_stream_latency;
    cabsim_part = s.shared.current_cabsim_latency;
    tail_part = s.shared.cabsim_tail_samples;
    violation = s.shared.host_contract_violation;
  }

  -- What the steps after the first one leave alone.
  abbrev view : Processor D → Untouched E × Params E
  view s = (untouched s, s.params)

  follow_adaptive-view :
      (old p : Params E) (s : Processor D) → view (follow_adaptive D old p s) ≡ view s
  unfolding follow_adaptive
  follow_adaptive-view old p s = if_keeps view _ (view s) s _ refl refl

  follow_slim-view : (old p : Params E) (s : Processor D) → view (follow_slim D old p s) ≡ view s
  unfolding follow_slim
  follow_slim-view old p s = if_keeps view _ (view s) s _ refl refl

  -- The part of the shared state that the view reads.
  abbrev parts : Shared → ℕ × ℕ × ℕ × Bool
  parts h = (
    h.current_stream_latency, h.current_cabsim_latency, h.cabsim_tail_samples,
    h.host_contract_violation,
  )

  request_oversample-parts :
      (f : E.Factor) (h : Shared) → parts (request_oversample D f h) ≡ parts h
  unfolding request_oversample
  request_oversample-parts f h =
      if_keeps parts _ (parts h) _ _ (if_keeps parts _ (parts h) h _ refl refl) refl

  apply_oversample-view : (f : E.Factor) (s : Processor D) → view (apply_oversample D f s) ≡ view s
  unfolding apply_oversample
  apply_oversample-view f s =
      ap
        (λ q. (
          record (untouched s) {
            stream_part = q.0;
            cabsim_part = q.1;
            tail_part = q.2;
            violation = q.3;
          },
          s.params,
        ))
        (request_oversample-parts f s.shared)

  follow_oversample-view :
      (old p : Params E) (s : Processor D) → view (follow_oversample D old p s) ≡ view s
  unfolding follow_oversample
  follow_oversample-view old p s =
      if_keeps view _ (view s) s _ refl (apply_oversample-view p.oversample s)

  follow_activation-view :
      (old p : Params E) (s : Processor D) → view (follow_activation D old p s) ≡ view s
  unfolding follow_activation
  follow_activation-view old p s = if_keeps view _ (view s) s _ refl refl

  follow_gate-view : (old p : Params E) (s : Processor D) → view (follow_gate D old p s) ≡ view s
  unfolding follow_gate
  follow_gate-view old p s = if_keeps view _ (view s) s _ refl refl

  take_over-view : (p : Params E) (s : Processor D) → view (take_over D p s) ≡ (untouched s, p)
  unfolding take_over
  take_over-view p s = refl

  apply_params_from_spsc-view :
      (p : Params E) (s : Processor D)
      → view (apply_params_from_spsc D p s) ≡ (untouched s, sanitized D p)
  unfolding apply_params_from_spsc
  apply_params_from_spsc-view p s =
      let q = sanitized D p in
      let a = take_over D q s in
      let b = follow_adaptive D s.params q a in
      let c = follow_slim D s.params q b in
      let d = follow_oversample D s.params q c in
      let e = follow_activation D s.params q d in
      follow_gate-view s.params q e
      ∙ (follow_activation-view s.params q d
          ∙ (follow_oversample-view s.params q c
              ∙ (follow_slim-view s.params q b
                  ∙ (follow_adaptive-view s.params q a ∙ take_over-view q s))))

  pub apply_params_from_spsc-untouched :
      (p : Params E) (s : Processor D) → untouched (apply_params_from_spsc D p s) ≡ untouched s
  apply_params_from_spsc-untouched p s = ap (λ v. v.0) (apply_params_from_spsc-view p s)

  pub apply_params_from_spsc-params :
      (p : Params E) (s : Processor D) → (apply_params_from_spsc D p s).params ≡ sanitized D p
  apply_params_from_spsc-params p s = ap (λ v. v.1) (apply_params_from_spsc-view p s)
