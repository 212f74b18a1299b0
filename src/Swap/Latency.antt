-- ===== src/Swap/Latency.antt =====
-- Latency and tail in src/clap/processor/events.rs: what is published is what is installed.
use nam_plug.Prelude.{
  ℕ, ◌+◌, ◌≡◌, ◌≢◌, refl, sym, ap, ◌∙◌, min, true, false, Bool-cases, Option, none, some, inl, inr,
  if_has, arith, ◌==◌,
}
use nam_plug.Engine.{Engine, Params}
use nam_plug.Dsp.{Dsp}
use nam_plug.Payload.{
  LoadModelPayload, RestoreTxn, ClapParamPayload, params, load_model, load_cab_ir, set_oversample,
  restore_txn,
}
use nam_plug.Scheduler.{wrap64}
use nam_plug.Swap.{Processor, wrap32}
use nam_plug.Swap.Apply.{apply_params_from_spsc}
use nam_plug.Swap.Frame.{Untouched, apply_params_from_spsc-untouched}
use nam_plug.Swap.Handler.{
  pair_latency, pair_tail, current_tail, report_tail, is_stale, recompute_effective_latency,
  check_tail_changed, cold_load_model, reject_cabsim, swap_cabsim, accept_cabsim, cold_load_cabsim,
  cold_load_os, load_model_some, load_cabsim_some, cold_apply_restore_txn, apply_structural,
  install,
}

module _ {E : Engine} (D : Dsp E) where
  -- The cached latency is the sum of the installed resources', the dry line is delayed by it as far as
  -- its capacity allows, and the published parts are those of the installed stream and cab-sim pair.
  pub record Aligned (s : Processor D) : Type 0 where
    pub effective :
        s.cached_effective_latency
        ≡ wrap32 (
            wrap32 (D.stream_latency s.stream + wrap32 (D.os_latency s.os_l))
            + pair_latency D s.cabsim_pair)
    pub dry : s.dry_delay ≡ min s.cached_effective_latency s.dry_capacity
    pub stream_part : s.shared.current_stream_latency ≡ D.stream_latency s.stream
    pub cabsim_part : s.shared.current_cabsim_latency ≡ pair_latency D s.cabsim_pair
    pub tail_part : s.shared.cabsim_tail_samples ≡ pair_tail D s.cabsim_pair

  cold_load_model-Aligned :
      (p : LoadModelPayload E) (s : Processor D) → Aligned s → Aligned (cold_load_model D p s)
  unfolding cold_load_model recompute_effective_latency
  cold_load_model-Aligned p s v = record {
    effective = refl;
    dry = refl;
    stream_part = refl;
    cabsim_part = v.cabsim_part;
    tail_part = v.tail_part;
  }

  cold_load_os-Aligned :
      (l r : E.OversampleEngine) (s : Processor D) → Aligned s → Aligned (cold_load_os D l r s)
  unfolding cold_load_os recompute_effective_latency
  cold_load_os-Aligned l r s v = record {
    effective = refl;
    dry = refl;
    stream_part = v.stream_part;
    cabsim_part = v.cabsim_part;
    tail_part = v.tail_part;
  }

  report_tail-Aligned : (s : Processor D) → Aligned s → Aligned (report_tail D s)
  unfolding report_tail
  report_tail-Aligned s v = record {
    effective = v.effective;
    dry = v.dry;
    stream_part = v.stream_part;
    cabsim_part = v.cabsim_part;
    tail_part = v.tail_part;
  }

  check_tail_changed-Aligned : (s : Processor D) → Aligned s → Aligned (check_tail_changed D s)
  unfolding check_tail_changed
  check_tail_changed-Aligned s v =
      if_has Aligned (current_tail D s == s.shared.last_reported_tail_samples) s (report_tail D s) v
        (report_tail-Aligned s v)

  swap_cabsim-Aligned :
      (ir : Option E.CabSimPair) (s : Processor D) → Aligned s → Aligned (swap_cabsim D ir s)
  unfolding swap_cabsim recompute_effective_latency
  swap_cabsim-Aligned ir s v = record {
    effective = refl;
    dry = refl;
    stream_part = v.stream_part;
    cabsim_part = refl;
    tail_part = refl;
  }

  reject_cabsim-Aligned :
      (ir : Option E.CabSimPair) (s : Processor D) → Aligned s → Aligned (reject_cabsim D ir s)
  unfolding reject_cabsim
  reject_cabsim-Aligned ir s v = record {
    effective = v.effective;
    dry = v.dry;
    stream_part = v.stream_part;
    cabsim_part = v.cabsim_part;
    tail_part = v.tail_part;
  }

  cold_load_cabsim-Aligned :
      (ir : Option E.CabSimPair) (s : Processor D) → Aligned s → Aligned (cold_load_cabsim D ir s)
  unfolding cold_load_cabsim accept_cabsim
  cold_load_cabsim-Aligned ir s v =
      if_has Aligned (is_stale D s.shared.sample_rate ir) (reject_cabsim D ir s)
        (check_tail_changed D (swap_cabsim D ir s)) (reject_cabsim-Aligned ir s v)
        (check_tail_changed-Aligned (swap_cabsim D ir s) (swap_cabsim-Aligned ir s v))

  apply_params_from_spsc-Aligned :
      (p : Params E) (s : Processor D) → Aligned s → Aligned (apply_params_from_spsc D p s)
  apply_params_from_spsc-Aligned p s v =
      let e = apply_params_from_spsc-untouched D p s in
      record {
        effective = ap (λ t. t.cached) e ∙ (v.effective ∙ sym (ap sum_of e));
        dry = ap (λ t. t.dry) e ∙ (v.dry ∙ sym (ap (λ t. min t.cached t.dry_capacity) e));
        stream_part =
            ap (λ t. t.stream_part) e
            ∙ (v.stream_part ∙ sym (ap (λ t. D.stream_latency t.stream) e));
        cabsim_part =
            ap (λ t. t.cabsim_part) e
            ∙ (v.cabsim_part ∙ sym (ap (λ t. pair_latency D t.cabsim_pair) e));
        tail_part =
            ap (λ t. t.tail_part) e ∙ (v.tail_part ∙ sym (ap (λ t. pair_tail D t.cabsim_pair) e));
      }
    where
      sum_of : Untouched E → ℕ
      sum_of t = wrap32 (
          wrap32 (D.stream_latency t.stream + wrap32 (D.os_latency t.os_l))
          + pair_latency D t.cabsim_pair)

  load_model_some-Aligned :
      (o : Option (LoadModelPayload E)) (s : Processor D)
      → Aligned s
      → Aligned (load_model_some D o s)
  load_model_some-Aligned none s v = v
  load_model_some-Aligned (some p) s v = cold_load_model-Aligned p s v

  load_cabsim_some-Aligned :
      (o : Option (Option E.CabSimPair)) (s : Processor D)
      → Aligned s
      → Aligned (load_cabsim_some D o s)
  load_cabsim_some-Aligned none s v = v
  load_cabsim_some-Aligned (some ir) s v = cold_load_cabsim-Aligned ir s v

  cold_apply_restore_txn-Aligned :
      (t : RestoreTxn E) (s : Processor D) → Aligned s → Aligned (cold_apply_restore_txn D t s)
  unfolding cold_apply_restore_txn
  cold_apply_restore_txn-Aligned t s v =
      let m = load_model_some D t.model s in
      let i = load_cabsim_some D t.ir m in
      let k =
        apply_params_from_spsc-Aligned t.params i
          (load_cabsim_some-Aligned t.ir m (load_model_some-Aligned t.model s v)) in
      record {
        effective = k.effective;
        dry = k.dry;
        stream_part = k.stream_part;
        cabsim_part = k.cabsim_part;
        tail_part = k.tail_part;
      }

  apply_structural-Aligned :
      (a : ClapParamPayload E) (s : Processor D) → Aligned s → Aligned (apply_structural D a s)
  unfolding apply_structural
  apply_structural-Aligned (params p) s v = apply_params_from_spsc-Aligned p s v
  apply_structural-Aligned (load_model p) s v = cold_load_model-Aligned p s v
  apply_structural-Aligned (load_cab_ir pair) s v = cold_load_cabsim-Aligned pair s v
  apply_structural-Aligned (set_oversample l r) s v = cold_load_os-Aligned l r s v
  apply_structural-Aligned (restore_txn t) s v = cold_apply_restore_txn-Aligned t s v

  -- Every installed command keeps the latency in line with the resources: the cached value is the
  -- wrapped sum of the installed stream's, oversampler's and cab-sim pair's, the dry line is delayed
  -- by that or by its capacity, whichever is less, and the parts and the tail published to the main
  -- thread are the installed ones'.
  pub install-Aligned :
      (a : ClapParamPayload E) (s : Processor D) → Aligned s → Aligned (install D a s)
  unfolding install
  install-Aligned a s v =
      apply_structural-Aligned a (record s { resolved = wrap64 (s.resolved + 1) })
        (record {
          effective = v.effective;
          dry = v.dry;
          stream_part = v.stream_part;
          cabsim_part = v.cabsim_part;
          tail_part = v.tail_part;
        })

  eq_same : (n : ℕ) → (n == n) ≡ true
  eq_same n = ground arith

  told :
      (s : Processor D)
      → (current_tail D s == s.shared.last_reported_tail_samples) ≡ true
      → s.shared.last_reported_tail_samples ≡ current_tail D s
  told s e = eq_told (current_tail D s) s.shared.last_reported_tail_samples e
    where
      eq_told : (m n : ℕ) → (m == n) ≡ true → n ≡ m
      eq_told m n e = ground arith

  untold :
      (s : Processor D)
      → (current_tail D s == s.shared.last_reported_tail_samples) ≡ false
      → s.shared.last_reported_tail_samples ≢ current_tail D s
  untold s e = ne_told (current_tail D s) s.shared.last_reported_tail_samples e
    where
      ne_told : (m n : ℕ) → (m == n) ≡ false → n ≢ m
      ne_told m n e = ground arith

  -- `check_tail_changed` leaves the host told the current tail, with one call exactly if it was told
  -- another before; a second check tells it nothing.
  pub check_tail_changed_lem :
      (s : Processor D)
      → let t = check_tail_changed D s in
        (t.shared.last_reported_tail_samples ≡ current_tail D t)
        × (current_tail D t ≡ current_tail D s)
        × (s.shared.last_reported_tail_samples ≡ current_tail D s → t.tail_changes ≡ s.tail_changes)
        × (s.shared.last_reported_tail_samples ≢ current_tail D s
            → t.tail_changes ≡ s.tail_changes + 1)
        × (check_tail_changed D t ≡ t)
  unfolding check_tail_changed report_tail
  check_tail_changed_lem s =
      elim (Bool-cases (current_tail D s == s.shared.last_reported_tail_samples)) [
        | inl e ↦
            rw (check_tail_changed, e)
              (told s e, refl, λ _. refl, λ k. absurd (k (told s e)), rw e refl)
        | inr n ↦
            rw (check_tail_changed, n)
              (
                refl,
                refl,
                λ k. absurd (untold s n k),
                λ _. refl,
                rw (eq_same (current_tail D s)) refl,
              )
      ]
