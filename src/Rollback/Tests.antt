-- ===== src/Rollback/Tests.antt =====
-- An activation that fails with two models and an impulse response still queued.
use nam_plug.Prelude.{ℕ, ◌≡◌, refl, none, some, List, [], ◌∷◌}
use nam_plug.Engine.{Ring}
use nam_plug.Payload.{ClapParamPayload, LoadModelPayload, load_model, load_cab_ir}
use nam_plug.Restart.{pending, encode}
use nam_plug.Samples.{engine, dsp, dsp-Factors, x2, list_ring}
use nam_plug.Rollback.{Cold, Guard, Moved, failed, drop_guard, defuse}
use nam_plug.Rollback.Restore.{
  Recovered, AfterError, drop_guard-Recovered, defuse-loses, extract-give_up,
}

abbrev numbers : Moved
numbers = record { GcTx = ℕ; SlimmableRx = ℕ; Deactivated = ℕ }

abbrev commands : Ring (ClapParamPayload engine)
commands = list_ring 16

abbrev a_model : ℕ → LoadModelPayload engine
a_model n = record {
  generation = n;
  model_l = some 3;
  model_r = none;
  new_resampler = 0;
  new_stream = 0;
  model_rate = 48000;
  input_mult_adj = 0;
  output_mult_adj = 0;
  prewarm_cost_ns = none;
}

abbrev queued : List (ClapParamPayload engine)
queued = load_model (a_model 5) ∷ load_cab_ir (some 7) ∷ load_model (a_model 4) ∷ []

abbrev before_activate : Cold commands numbers
before_activate = record {
  pending_restart_os_factor = 2;
  slimmable_rx = some 1;
  gc_tx = some 2;
  param_rx = some queued;
  recovered_commands = load_cab_ir none ∷ [];
  pending_model = none;
  cmd_last_ack = 10;
  deactivated_dsp = some 9;
}

abbrev guard : Guard commands numbers
guard = record {
  param_rx = some queued;
  gc_tx = none;
  slimmable_rx = some 1;
  deactivated = none;
  pending_restart_os_factor = none;
}

abbrev in_activate : Cold commands numbers
in_activate = record before_activate { param_rx = none; slimmable_rx = none }

drop_guard-Recovered_example :
    Recovered commands numbers queued in_activate
      (drop_guard commands numbers dsp guard in_activate).1
    × (drop_guard commands numbers dsp
          (drop_guard commands numbers dsp guard in_activate).0
          (drop_guard commands numbers dsp guard in_activate).1
        ≡ drop_guard commands numbers dsp guard in_activate)
drop_guard-Recovered_example =
    drop_guard-Recovered commands numbers dsp guard in_activate queued refl

defuse-loses_example :
    (d : Cold commands numbers) × (defuse commands numbers dsp guard in_activate ≡ failed d)
    × (d.param_rx ≡ none)
    × (d.recovered_commands ≡ load_cab_ir none ∷ [])
    × (d.cmd_last_ack ≡ 10)
defuse-loses_example = defuse-loses commands numbers dsp guard in_activate queued refl refl

two_is_pending : before_activate.pending_restart_os_factor ≡ encode dsp (pending x2)
unfolding encode
two_is_pending = refl

extract-give_up_example : AfterError commands numbers dsp before_activate
extract-give_up_example =
    extract-give_up commands numbers dsp dsp-Factors (pending x2) before_activate two_is_pending
