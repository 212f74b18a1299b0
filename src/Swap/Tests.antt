-- ===== src/Swap/Tests.antt =====
-- Commands installed on a processor of the sample engine.
use nam_plug.Prelude.{ℕ, ◌+◌, ◌≡◌, refl, false, none, some, [], ◌∷◌}
use nam_plug.Payload.{LoadModelPayload, RestoreTxn, load_model, load_cab_ir, restore_txn, cab_ir}
use nam_plug.Samples.{engine, dsp, off, x2}
use nam_plug.Swap.{GcItem, model, resampler, streaming, oversample, cab_sim_pair, Shared, Processor}
use nam_plug.Swap.Apply.{sanitized}
use nam_plug.Swap.Handler.{
  cold_apply_restore_txn, install, discard, install_rebuild, discard_rebuild, coalesce_key,
  cold_load_cabsim, reject_cabsim,
}
use nam_plug.Swap.Resources.{owned, held, carried, weigh_all, install-conserves, discard-conserves}
use nam_plug.Swap.Latency.{Aligned, install-Aligned}
use nam_plug.Swap.Restore.{ModelRestored, IrRestored, cold_apply_restore_txn_lem}

abbrev shared : Shared
shared = record {
  sample_rate = 44100;
  buffer_size = 64;
  pending_restart_os_factor = 0;
  current_stream_latency = 5;
  current_cabsim_latency = 0;
  cabsim_tail_samples = 0;
  last_reported_tail_samples = 0;
  last_applied_generation = 0;
  cmd_last_ack = 0;
  slimmable_stale_discarded_total = 0;
  requested_os_factor = 0;
  needs_os_rebuild = false;
  host_contract_violation = false;
}

abbrev running : Processor dsp
running = record {
  model_l = some 1;
  model_r = none;
  model_generation = 1;
  resampler = 2;
  stream = 5;
  os_l = 0;
  os_r = 0;
  cabsim_pair = none;
  params = engine.default;
  applied_os_factor = off;
  model_input_mult_adj = 0;
  model_output_mult_adj = 0;
  adaptive_compute = 0;
  cached_effective_latency = 5;
  dry_capacity = 9000;
  dry_delay = 5;
  smoother_in = 0;
  smoother_out = 0;
  mod_input_gain = 0;
  mod_output_gain = 0;
  gate_dirty = false;
  prewarm_pending = false;
  prewarm_cost_ns_per_sample = none;
  prewarm_zero_budget_count = 0;
  activation_tls = false;
  shared = shared;
  gc = [];
  tail_changes = 0;
  resolved = 0;
}

abbrev newer : LoadModelPayload engine
newer = record {
  generation = 2;
  model_l = some 3;
  model_r = some 4;
  new_resampler = 6;
  new_stream = 9;
  model_rate = 48000;
  input_mult_adj = 0;
  output_mult_adj = 0;
  prewarm_cost_ns = none;
}

-- A restore whose cab-sim pair was built for 48000 while the host runs at 44100.
abbrev stale_restore : RestoreTxn engine
stale_restore = record {
  generation = 7;
  model = some newer;
  ir = some (some 64);
  params = record engine.default { oversample = x2 };
}

abbrev weight : GcItem engine → ℕ
weight (model m) = m
weight (resampler r) = r
weight (streaming s) = s
weight (oversample o) = o
weight (cab_sim_pair p) = p

install-conserves_example :
    owned dsp weight (install dsp (restore_txn stale_restore) running)
    ≡ owned dsp weight running + carried dsp weight (restore_txn stale_restore)
install-conserves_example = install-conserves dsp weight (restore_txn stale_restore) running

discard-conserves_example :
    (weigh_all dsp weight (discard dsp (load_cab_ir (some 64)) running).gc
      ≡ weigh_all dsp weight running.gc + carried dsp weight (load_cab_ir (some 64)))
    × (held dsp weight (discard dsp (load_cab_ir (some 64)) running) ≡ held dsp weight running)
unfolding coalesce_key
discard-conserves_example = discard-conserves dsp weight (load_cab_ir (some 64)) cab_ir running refl

running-Aligned : Aligned dsp running
running-Aligned = record {
  effective = refl;
  dry = refl;
  stream_part = refl;
  cabsim_part = refl;
  tail_part = refl;
}

install-Aligned_example : Aligned dsp (install dsp (load_model newer) running)
install-Aligned_example = install-Aligned dsp (load_model newer) running running-Aligned

cold_apply_restore_txn_lem_example :
    let t = cold_apply_restore_txn dsp stale_restore running in
    (t.params ≡ sanitized dsp stale_restore.params)
    × (t.shared.last_applied_generation ≡ 7)
    × ModelRestored dsp (some newer) running t
    × IrRestored dsp (some (some 64)) running t
cold_apply_restore_txn_lem_example = cold_apply_restore_txn_lem dsp stale_restore running

-- The stale pair is not installed, though the restore's generation is published.
stale-cabsim : (cold_load_cabsim dsp (some 64) running).cabsim_pair ≡ none
unfolding cold_load_cabsim reject_cabsim
stale-cabsim = refl

-- A rebuild of another model's generation is retired, and counted.
stale-rebuild :
    let s = discard_rebuild dsp (record { generation = 3; model = 8 }) running in
    (s.gc ≡ model 8 ∷ []) × (s.shared.slimmable_stale_discarded_total ≡ 1)
unfolding discard_rebuild
stale-rebuild = (refl, refl)

fresh-rebuild :
    let s = install_rebuild dsp (record { generation = 1; model = 8 }) running in
    (s.gc ≡ model 1 ∷ []) × (s.model_l ≡ some 8) × (s.model_generation ≡ 1)
unfolding install_rebuild
fresh-rebuild = (refl, refl, refl)
