-- ===== src/Rollback.antt =====
-- src/clap/processor/rollback.rs: `ActivateRollbackGuard`, which `activate` fills with what it takes
-- out of the shared state and which puts it back when the activation fails.
--
-- A mutex is a slot; the ring's consumer end is its queue. A drained model payload leaves its
-- resampler and stream to the main thread.
pub mod Recover
pub mod Restore
mod Tests
use nam_plug.Prelude.{
  ℕ, zero, suc, ◌+◌, Bool, true, false, Option, none, some, List, [], ◌∷◌, ◌++◌, length, ltb,
  if◌then◌else◌,
}
use nam_plug.Float.{F32}
use nam_plug.Engine.{Engine, Ring}
use nam_plug.Dsp.{Dsp}
use nam_plug.Payload.{LoadModelPayload, ClapParamPayload, load_model}
use nam_plug.Restart.{PendingRestartOs, no_restart, pending, encode, take}
use nam_plug.Scheduler.{wrap64}

pub record PendingModel (E : Engine) : Type 0 where
  pub generation : ℕ
  pub model : Option E.StaticModel
  pub model_r : Option E.StaticModel
  pub model_rate : ℕ
  pub input_mult_adj : F32
  pub output_mult_adj : F32

-- `is_none_or(|p| candidate.generation > p.generation)`.
abbrev pub is_newer : {E : Engine} → PendingModel E → Option (PendingModel E) → Bool
is_newer candidate none = true
is_newer candidate (some p) = ltb p.generation candidate.generation

abbrev pub keep_newest :
    {E : Engine} → PendingModel E → Option (PendingModel E) → Option (PendingModel E)
keep_newest candidate p = if is_newer candidate p then some candidate else p

module _ {E : Engine} where
  abbrev pub candidate_of : LoadModelPayload E → PendingModel E
  candidate_of p = record {
    generation = p.generation;
    model = p.model_l;
    model_r = p.model_r;
    model_rate = p.model_rate;
    input_mult_adj = p.input_mult_adj;
    output_mult_adj = p.output_mult_adj;
  }

-- What the loop in `drop` has gathered: the staged commands, the newest model, the number drained.
pub record Recovery (E : Engine) : Type 0 where
  pub staged : List (ClapParamPayload E)
  pub newest : Option (PendingModel E)
  pub drained : ℕ

module _ {E : Engine} where
  unfoldable pub recover_one : ClapParamPayload E → Recovery E → Recovery E
  recover_one (load_model p) r = record r {
    newest = keep_newest (candidate_of p) r.newest;
    drained = r.drained + 1;
  }
  recover_one a r = record r { staged = r.staged ++ (a ∷ []); drained = r.drained + 1 }

  -- `while let Ok(boxed_payload) = rx.pop()`, on fuel for as many commands as are queued.
  unfoldable pub recover_all :
      (R : Ring (ClapParamPayload E)) → ℕ → R.Queue → Recovery E → R.Queue × Recovery E
  unfolding recover_one
  recover_all R zero q r = (q, r)
  recover_all R (suc fuel) q r = elim (R.pop q) [
    | some (a, rest) ↦ recover_all R fuel rest (recover_one a r)
    | none ↦ (q, r)
  ]

-- `if let Some(x) = self.x.take() { slot = Some(x) }`.
abbrev pub put_back : {A : Type 0} → Option A → Option A → Option A
put_back none slot = slot
put_back (some a) slot = some a

module _ {E : Engine} where
  -- `if let Some(candidate) = newest_model`, with the test on the slot.
  abbrev pub keep_some : Option (PendingModel E) → Option (PendingModel E) → Option (PendingModel E)
  keep_some none slot = slot
  keep_some (some candidate) slot = keep_newest candidate slot

-- What the guard only moves: the producer end of the garbage ring, the consumer end of the
-- slimmable ring, the deactivated state.
pub record Moved : Type 1 where
  pub GcTx : Type 0
  pub SlimmableRx : Type 0
  pub Deactivated : Type 0

module _ {E : Engine} (R : Ring (ClapParamPayload E)) (M : Moved) where
  -- The slots of `ColdShared` that the guard touches.
  pub record Cold : Type 0 where
    pub pending_restart_os_factor : ℕ
    pub slimmable_rx : Option M.SlimmableRx
    pub gc_tx : Option M.GcTx
    pub param_rx : Option R.Queue
    pub recovered_commands : List (ClapParamPayload E)
    pub pending_model : Option (PendingModel E)
    pub cmd_last_ack : ℕ
    pub deactivated_dsp : Option M.Deactivated

  pub record Guard : Type 0 where
    pub param_rx : Option R.Queue
    pub gc_tx : Option M.GcTx
    pub slimmable_rx : Option M.SlimmableRx
    pub deactivated : Option M.Deactivated
    pub pending_restart_os_factor : Option (PendingRestartOs E)

  -- `new`, and what a drop leaves.
  abbrev pub empty_guard : Guard
  empty_guard = record {
    param_rx = none;
    gc_tx = none;
    slimmable_rx = none;
    deactivated = none;
    pending_restart_os_factor = none;
  }

  unfoldable pub recover_commands : R.Queue → Cold → Cold
  unfolding recover_all
  recover_commands rx c =
      let newer = c.recovered_commands in
      let (q, r) =
        recover_all R (length (R.items rx)) rx
          (record { staged = []; newest = none; drained = 0 }) in
      record c {
        recovered_commands = r.staged ++ newer;
        pending_model = keep_some r.newest c.pending_model;
        cmd_last_ack = wrap64 (c.cmd_last_ack + r.drained);
        param_rx = some q;
      }

  abbrev recover_some : Option R.Queue → Cold → Cold
  recover_some none c = c
  recover_some (some rx) c = recover_commands rx c

  abbrev pub restart_raw : Dsp E → Option (PendingRestartOs E) → ℕ → ℕ
  restart_raw D none raw = raw
  restart_raw D (some restart) raw = encode D restart

  -- `Drop`: what the guard still holds goes back, each to its slot.
  unfoldable pub drop_guard : Dsp E → Guard → Cold → Guard × Cold
  unfolding recover_commands encode
  drop_guard D g c =
      let c1 = record c {
        pending_restart_os_factor =
            restart_raw D g.pending_restart_os_factor c.pending_restart_os_factor;
        slimmable_rx = put_back g.slimmable_rx c.slimmable_rx;
        gc_tx = put_back g.gc_tx c.gc_tx;
      } in
      let c2 = recover_some g.param_rx c1 in
      (empty_guard, record c2 { deactivated_dsp = put_back g.deactivated c2.deactivated_dsp })

  -- `defuse`: each end is taken before the next is looked for; an early return drops the guard, and
  -- with it whatever was taken already. On success the three ends go to the processor.
  pub data Defused : Type 0 where
    activated : R.Queue → M.GcTx → M.SlimmableRx → Cold → Defused
    failed : Cold → Defused

  unfoldable pub defuse : Dsp E → Guard → Cold → Defused
  unfolding drop_guard
  defuse D g c = elim g.param_rx [
    | none ↦ failed (drop_guard D g c).1
    | some rx ↦ elim g.gc_tx [
      | none ↦ failed (drop_guard D (record g { param_rx = none }) c).1
      | some tx ↦ elim g.slimmable_rx [
        | none ↦ failed (drop_guard D (record g { param_rx = none; gc_tx = none }) c).1
        | some slimmable ↦ activated rx tx slimmable c
      ]
    ]
  ]

  -- What `activate` takes: the three ends, an empty slot being an early return that drops the guard;
  -- then the pending restart and the deactivated state.
  pub data Extracted : Type 0 where
    extracted : Guard → Cold → Extracted
    refused : Cold → Extracted

  abbrev pub held_restart : PendingRestartOs E → Option (PendingRestartOs E)
  held_restart no_restart = none
  held_restart (pending f) = some (pending f)

  unfoldable pub take_states : Dsp E → Guard → Cold → Guard × Cold
  unfolding take
  take_states D g c =
      let (restart, raw) = take D c.pending_restart_os_factor in
      (
        record g {
          pending_restart_os_factor = held_restart restart;
          deactivated = c.deactivated_dsp;
        },
        record c { pending_restart_os_factor = raw; deactivated_dsp = none },
      )

  unfoldable pub extract : Dsp E → Cold → Extracted
  unfolding drop_guard take_states
  extract D c = elim c.param_rx [
    | none ↦ refused c
    | some rx ↦
        let g1 = record empty_guard { param_rx = some rx } in
        let c1 = record c { param_rx = none } in
        elim c1.gc_tx [
          | none ↦ refused (drop_guard D g1 c1).1
          | some tx ↦
              let g2 = record g1 { gc_tx = some tx } in
              let c2 = record c1 { gc_tx = none } in
              elim c2.slimmable_rx [
                | none ↦ refused (drop_guard D g2 c2).1
                | some slimmable ↦
                    let (g, d) =
                      take_states D (record g2 { slimmable_rx = some slimmable })
                        (record c2 { slimmable_rx = none }) in
                    extracted g d
              ]
        ]
  ]

  -- The shared state when `activate` returns an error before it assembles the resources: the guard is
  -- dropped if it still exists.
  unfoldable pub give_up : Dsp E → Extracted → Cold
  unfolding drop_guard
  give_up D (extracted g c) = (drop_guard D g c).1
  give_up D (refused c) = c

  -- `rollback.deactivated.take()`: the assembly moves what it holds out of the guard.
  abbrev pub take_deactivated : Guard → Guard
  take_deactivated g = record g { deactivated = none }

  -- The shared state when `flush_pending_model` fails after the assembly, and has put its model back.
  unfoldable pub give_up_late : Dsp E → Extracted → Cold
  unfolding drop_guard
  give_up_late D (extracted g c) = (drop_guard D (take_deactivated g) c).1
  give_up_late D (refused c) = c
