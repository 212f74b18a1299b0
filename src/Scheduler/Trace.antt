-- ===== src/Scheduler/Trace.antt =====
-- Whole runs of the command channel (src/clap/plugin/command_scheduler.rs): any calls of the
-- producer between any calls of the consumer.
use nam_plug.Prelude.{ℕ, ◌+◌, ◌≡◌, some, List, [], ◌∷◌, ◌++◌, length}
use nam_plug.Engine.{Engine, Params, RoundTrips, Ring}
use nam_plug.Payload.{ClapParamPayload}
use nam_plug.Scheduler.{
  Channel, default_buffer, push_params, force_flush, try_push_command, new_consumer, pop_boxed,
  rollback_last_pop, advance_pending, after_drain, resolve_parked,
}
use nam_plug.Scheduler.Delivery.{flushed, sent}

module _ {E : Engine} (R : Ring (ClapParamPayload E)) (rt : RoundTrips E) where
  -- The channel; what was ever pushed and what was resolved (installed or discarded), oldest first;
  -- the payload that the drain has parked; how many the published number covers; and the count that
  -- the drain in progress has kept.
  pub record System : Type 0 where
    pub chan : Channel E R
    pub pushed : List (ClapParamPayload E)
    pub resolved : List (ClapParamPayload E)
    pub parked : List (ClapParamPayload E)
    pub acked : ℕ
    pub since : ℕ

  -- Two ends that were just created, around an empty ring.
  abbrev pub initial : R.Queue → System
  initial q = record {
    chan = record {
      queue = q;
      next_seq = 0;
      last_ack = 0;
      coalescing = default_buffer;
      processed_seq = 0;
    };
    pushed = [];
    resolved = [];
    parked = [];
    acked = 0;
    since = 0;
  }

  pub data Step (s : System) : System → Type 0 where
    coalesces : (p : Params E) → Step s (record s { chan = (push_params E R p s.chan).0 })
    flushes :
        Step s
          (record s { chan = (force_flush E R s.chan).0; pushed = s.pushed ++ flushed R rt s.chan })
    commands :
        (a : ClapParamPayload E)
        → Step s (record s {
          chan = (try_push_command E R a s.chan).0;
          pushed = s.pushed ++ sent R rt a s.chan;
        })
    -- The drain pops a payload and installs or discards it; the parked one comes first.
    resolves :
        (a : ClapParamPayload E) (c : Channel E R)
        → s.parked ≡ []
        → pop_boxed E R s.chan ≡ some (a, c)
        → Step s (record s { chan = c; resolved = s.resolved ++ (a ∷ []); since = s.since + 1 })
    -- It pops a payload and parks it: the budget is spent.
    parks :
        (a : ClapParamPayload E) (c : Channel E R)
        → s.parked ≡ []
        → pop_boxed E R s.chan ≡ some (a, c)
        → Step s (record s { chan = rollback_last_pop E R c; parked = a ∷ [] })
    settles :
        (a : ClapParamPayload E)
        → s.parked ≡ a ∷ []
        → Step s (record s {
          chan = advance_pending E R s.chan;
          resolved = s.resolved ++ (a ∷ []);
          parked = [];
          since = s.since + 1;
        })
    publishes :
        Step s
          (record s { chan = after_drain E R s.since s.chan; acked = length s.resolved; since = 0 })
    -- `deactivate` between two drains drops the parked payload.
    deactivates :
        (a : ClapParamPayload E)
        → s.parked ≡ a ∷ []
        → s.since ≡ 0
        → Step s (record s {
          chan = resolve_parked E R s.chan;
          resolved = s.resolved ++ (a ∷ []);
          parked = [];
          acked = length s.resolved + 1;
        })
    activates : s.parked ≡ [] → s.since ≡ 0 → Step s (record s { chan = new_consumer E R s.chan })

  pub data Reach : System → System → Type 0 where
    here : {s : System} → Reach s s
    next : {s t u : System} → Reach s t → Step t u → Reach s u
