-- ===== src/Swap/Handler.antt =====
-- The cold paths of src/clap/processor/events.rs, with `install`, `discard` and `after_drain`.
use nam_plug.Prelude.{
  ℕ, ◌+◌, ◌*◌, ◌-◌, ◌^◌, min, Bool, true, false, not, ◌&&◌, Option, none, some, List, [], ◌∷◌, ◌++◌,
  ◌==◌, if◌then◌else◌,
}
use nam_plug.Engine.{Engine}
use nam_plug.Dsp.{Dsp}
use nam_plug.Payload.{
  LoadModelPayload, RestoreTxn, ClapParamPayload, params, load_model, load_cab_ir, set_oversample,
  restore_txn, StructuralKind, is_coalescible, structural_kind,
}
use nam_plug.Scheduler.{wrap64}
use nam_plug.Swap.{GcItem, model, resampler, streaming, oversample, cab_sim_pair, Processor, wrap32}
use nam_plug.Swap.Apply.{apply_params_from_spsc}

module _ {E : Engine} (D : Dsp E) where
  -- `gc.retire`, and `if let Some(old) = ... { gc.retire(..) }`.
  abbrev pub retire : GcItem E → List (GcItem E) → List (GcItem E)
  retire item gc = gc ++ (item ∷ [])

  abbrev pub retire_some :
      {A : Type 0} → (A → GcItem E) → Option A → List (GcItem E) → List (GcItem E)
  retire_some f none gc = gc
  retire_some f (some a) gc = retire (f a) gc

  abbrev pub pair_latency : Option E.CabSimPair → ℕ
  pair_latency none = 0
  pair_latency (some pair) = wrap32 (D.partition_size pair)

  abbrev pub pair_tail : Option E.CabSimPair → ℕ
  pair_tail none = 0
  pair_tail (some pair) = wrap32 (D.num_partitions pair * D.channel_latency pair)

  -- `DryDelayLine::set_delay`, which clamps to the capacity.
  abbrev pub set_dry_delay : ℕ → Processor D → Processor D
  set_dry_delay delay s = record s { dry_delay = min delay s.dry_capacity }

  unfoldable pub recompute_effective_latency : Processor D → Processor D
  recompute_effective_latency s =
      let with_os = wrap32 (D.stream_latency s.stream + wrap32 (D.os_latency s.os_l)) in
      let effective_latency = wrap32 (with_os + pair_latency s.cabsim_pair) in
      set_dry_delay effective_latency (record s { cached_effective_latency = effective_latency })

  -- `saturating_add` on `u32`.
  abbrev pub saturating_add : ℕ → ℕ → ℕ
  saturating_add a b = min (a + b) (2 ^ 32 - 1)

  abbrev pub current_tail : Processor D → ℕ
  current_tail s = saturating_add s.cached_effective_latency s.shared.cabsim_tail_samples

  unfoldable pub report_tail : Processor D → Processor D
  report_tail s = record s {
    shared = record s.shared { last_reported_tail_samples = current_tail s };
    tail_changes = s.tail_changes + 1;
  }

  -- `check_tail_changed`, which `cold_load_cabsim` repeats; a change is one call of the host.
  unfoldable pub check_tail_changed : Processor D → Processor D
  unfolding report_tail
  check_tail_changed s =
      if current_tail s == s.shared.last_reported_tail_samples then s else report_tail s

  -- `if let Some(model) = model_l && let WavenetDyn(w) = model`.
  abbrev track_wavenet : Option (ℕ × Bool) → D.Controller → D.Controller
  track_wavenet none c = c
  track_wavenet (some (ch, slimmable)) c = D.set_wavenet_full_ch ch slimmable c

  abbrev wavenet_of : Option E.StaticModel → Option (ℕ × Bool)
  wavenet_of none = none
  wavenet_of (some m) = D.wavenet_ch m

  -- The resources change hands before the latency is computed anew.
  unfoldable pub cold_load_model : LoadModelPayload E → Processor D → Processor D
  unfolding recompute_effective_latency
  cold_load_model p s = recompute_effective_latency (record s {
    model_generation = p.generation;
    model_l = p.model_l;
    model_r = p.model_r;
    resampler = p.new_resampler;
    stream = p.new_stream;
    gc = retire (streaming s.stream) (
        retire (resampler s.resampler)
          (retire_some model s.model_r (retire_some model s.model_l s.gc)));
    prewarm_pending = false;
    prewarm_zero_budget_count = 0;
    prewarm_cost_ns_per_sample = p.prewarm_cost_ns;
    shared = record s.shared { current_stream_latency = D.stream_latency p.new_stream };
    model_input_mult_adj = p.input_mult_adj;
    model_output_mult_adj = p.output_mult_adj;
    adaptive_compute = track_wavenet (wavenet_of p.model_l) s.adaptive_compute;
  })

  -- A pair that was built for another sample rate than the host's.
  abbrev pub is_stale : ℕ → Option E.CabSimPair → Bool
  is_stale host_rate none = false
  is_stale host_rate (some candidate) =
      not (host_rate == 0) && not (D.pair_sample_rate candidate == host_rate)

  unfoldable pub reject_cabsim : Option E.CabSimPair → Processor D → Processor D
  reject_cabsim pair s = record s {
    shared = record s.shared { host_contract_violation = true };
    gc = retire_some cab_sim_pair pair s.gc;
  }

  unfoldable pub swap_cabsim : Option E.CabSimPair → Processor D → Processor D
  unfolding recompute_effective_latency
  swap_cabsim pair s = recompute_effective_latency (record s {
    cabsim_pair = pair;
    gc = retire_some cab_sim_pair s.cabsim_pair s.gc;
    shared = record s.shared {
      current_cabsim_latency = pair_latency pair;
      cabsim_tail_samples = pair_tail pair;
    };
  })

  unfoldable pub accept_cabsim : Option E.CabSimPair → Processor D → Processor D
  unfolding swap_cabsim check_tail_changed
  accept_cabsim pair s = check_tail_changed (swap_cabsim pair s)

  unfoldable pub cold_load_cabsim : Option E.CabSimPair → Processor D → Processor D
  unfolding reject_cabsim accept_cabsim
  cold_load_cabsim pair s =
      if is_stale s.shared.sample_rate pair then reject_cabsim pair s else accept_cabsim pair s

  unfoldable pub cold_load_os : E.OversampleEngine → E.OversampleEngine → Processor D → Processor D
  unfolding recompute_effective_latency
  cold_load_os os_l os_r s = recompute_effective_latency (record s {
    applied_os_factor = D.os_factor os_l;
    os_l = os_l;
    os_r = os_r;
    gc = retire (oversample s.os_r) (retire (oversample s.os_l) s.gc);
  })

  abbrev pub load_model_some : Option (LoadModelPayload E) → Processor D → Processor D
  load_model_some none s = s
  load_model_some (some p) s = cold_load_model p s

  abbrev pub load_cabsim_some : Option (Option E.CabSimPair) → Processor D → Processor D
  load_cabsim_some none s = s
  load_cabsim_some (some ir) s = cold_load_cabsim ir s

  unfoldable pub cold_apply_restore_txn : RestoreTxn E → Processor D → Processor D
  unfolding cold_load_model cold_load_cabsim apply_params_from_spsc
  cold_apply_restore_txn txn s =
      let s1 = load_model_some txn.model s in
      let s2 = load_cabsim_some txn.ir s1 in
      let s3 = apply_params_from_spsc D txn.params s2 in
      record s3 { shared = record s3.shared { last_applied_generation = txn.generation } }

  unfoldable pub apply_structural : ClapParamPayload E → Processor D → Processor D
  unfolding cold_load_model cold_load_cabsim cold_load_os cold_apply_restore_txn
      apply_params_from_spsc
  apply_structural (params p) s = apply_params_from_spsc D p s
  apply_structural (load_model p) s = cold_load_model p s
  apply_structural (load_cab_ir pair) s = cold_load_cabsim pair s
  apply_structural (set_oversample os_l os_r) s = cold_load_os os_l os_r s
  apply_structural (restore_txn txn) s = cold_apply_restore_txn txn s

  -- Payloads of the other kinds are dropped where they stand.
  unfoldable pub discard_structural_payload : ClapParamPayload E → List (GcItem E) → List (GcItem E)
  discard_structural_payload (load_model p) gc = retire (streaming p.new_stream) (
      retire (resampler p.new_resampler)
        (retire_some model p.model_r (retire_some model p.model_l gc)))
  discard_structural_payload (load_cab_ir pair) gc = retire_some cab_sim_pair pair gc
  discard_structural_payload (set_oversample os_l os_r) gc =
      retire (oversample os_r) (retire (oversample os_l) gc)
  discard_structural_payload _ gc = gc

  unfoldable pub install : ClapParamPayload E → Processor D → Processor D
  unfolding apply_structural
  install payload s = apply_structural payload (record s { resolved = wrap64 (s.resolved + 1) })

  unfoldable pub discard : ClapParamPayload E → Processor D → Processor D
  unfolding discard_structural_payload
  discard payload s = record s {
    resolved = wrap64 (s.resolved + 1);
    gc = discard_structural_payload payload s.gc;
  }

  -- `coalesce_key`.
  unfoldable pub coalesce_key : ClapParamPayload E → Option StructuralKind
  unfolding structural_kind is_coalescible
  coalesce_key payload = elim (structural_kind payload) [
    | some kind ↦ if is_coalescible kind then some kind else none
    | none ↦ none
  ]

-- `SlimmableRebuild`, and `SlimmableSwapHandler`.
pub record SlimmableRebuild (E : Engine) : Type 0 where
  pub generation : ℕ
  pub model : E.StaticModel

module _ {E : Engine} (D : Dsp E) where
  unfoldable pub install_rebuild : SlimmableRebuild E → Processor D → Processor D
  install_rebuild rebuild s = record s {
    model_l = some rebuild.model;
    gc = retire_some D GcItem.model s.model_l s.gc;
  }

  unfoldable pub discard_rebuild : SlimmableRebuild E → Processor D → Processor D
  discard_rebuild rebuild s =
      let total = s.shared.slimmable_stale_discarded_total in
      record s {
        shared = record s.shared {
          slimmable_stale_discarded_total =
              if rebuild.generation == s.model_generation then total else wrap64 (total + 1);
        };
        gc = retire D (GcItem.model rebuild.model) s.gc;
      }
