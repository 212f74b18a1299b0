-- ===== src/Scheduler/Tests.antt =====
-- A run of the command channel, and the theorems at it.
use nam_plug.Prelude.{◌+◌, ◌≡◌, refl, true, false, none, some, List, [], ◌∷◌, ◌++◌, length, arith}
use nam_plug.Float.{u32_as_f32}
use nam_plug.Engine.{Params, Ring}
use nam_plug.Payload.{ClapParamPayload, params, load_cab_ir}
use nam_plug.Samples.{engine, engine-RoundTrips, list_ring}
use nam_plug.Scheduler.{
  Channel, wrap64, default_buffer, take_snapshot, restore_snapshot, push_params, take_all,
  push_payload, force_flush, try_push_command, is_acked, pop_boxed, rollback_last_pop,
  advance_pending, after_drain,
}
use nam_plug.Scheduler.Coalesce.{take_snapshot-restore_snapshot}
use nam_plug.Scheduler.Delivery.{queued, Placed, try_push_command-Placed}
use nam_plug.Scheduler.Trace.{
  System, initial, commands, resolves, parks, settles, publishes, Reach, here, next,
}
use nam_plug.Scheduler.Burst.{burst, burst_delivers_last}
use nam_plug.Scheduler.Acks.{pushed_in_order, is_acked-resolved, drained_is_acked}

abbrev Payload : Type 0
Payload = ClapParamPayload engine

abbrev ring : Ring Payload
ring = list_ring 2

abbrev louder : Params engine
louder = record engine.default { input_gain_db = 1094713344; bypass = true }

abbrev start : Channel engine ring
start = (initial ring engine-RoundTrips []).chan

take_snapshot-restore_snapshot_example :
    (take_snapshot engine (restore_snapshot engine louder default_buffer)).0 ≡ some louder
take_snapshot-restore_snapshot_example =
    take_snapshot-restore_snapshot engine engine-RoundTrips louder default_buffer

burst_delivers_last_example :
    let (d, r) = force_flush engine ring (burst ring (louder ∷ engine.default ∷ []) start) in
    (queued ring d ≡ queued ring start ++ (params louder ∷ []))
    × (wrap64 d.next_seq ≡ wrap64 (start.next_seq + 1))
    × (take_snapshot engine d.coalescing ≡ (none, d.coalescing))
burst_delivers_last_example =
    burst_delivers_last ring engine-RoundTrips louder (engine.default ∷ []) start (omega arith)

-- A snapshot is pending and the ring has one place: the snapshot takes it, not the command.
abbrev crowded : Channel engine ring
crowded = record (push_params engine ring louder start).0 { queue = load_cab_ir (some 7) ∷ [] }

crowded-queued :
    queued ring (try_push_command engine ring (load_cab_ir none) crowded).0
    ≡ load_cab_ir (some 7) ∷ params louder ∷ []
unfolding try_push_command push_params force_flush take_snapshot push_payload take_all u32_as_f32
crowded-queued = refl

try_push_command-Placed_example :
    Placed ring engine-RoundTrips
      (load_cab_ir none)
      crowded
      (try_push_command engine ring (load_cab_ir none) crowded).0
      (try_push_command engine ring (load_cab_ir none) crowded).1
try_push_command-Placed_example =
    try_push_command-Placed ring engine-RoundTrips (load_cab_ir none) crowded

-- Two commands are pushed; the first is installed, the second parked, and the drain publishes.
abbrev first : Payload
first = load_cab_ir (some 7)

abbrev second : Payload
second = load_cab_ir none

abbrev Sys : Type 0
Sys = System ring engine-RoundTrips

abbrev parked : Sys
parked = record {
  chan = record start { next_seq = 2; processed_seq = 1; last_ack = 1 };
  pushed = first ∷ second ∷ [];
  resolved = first ∷ [];
  parked = second ∷ [];
  acked = 1;
  since = 0;
}

Reach-parked : Reach ring engine-RoundTrips (initial ring engine-RoundTrips []) parked
unfolding try_push_command force_flush take_snapshot push_payload pop_boxed rollback_last_pop
    after_drain
Reach-parked =
    next
      (next
        (next (next (next here (commands first)) (commands second)) (
          resolves first (record start { queue = second ∷ []; next_seq = 2; processed_seq = 1 })
            refl refl))
        (parks second (record start { next_seq = 2; processed_seq = 2 }) refl refl))
      publishes

pushed_in_order_example :
    (parked.pushed ≡ parked.resolved ++ (parked.parked ++ queued ring parked.chan))
    × (parked.chan.processed_seq ≡ wrap64 (length parked.resolved))
    × ((after_drain engine ring parked.since parked.chan).last_ack ≡ parked.chan.processed_seq)
pushed_in_order_example = pushed_in_order ring engine-RoundTrips [] refl Reach-parked

is_acked-resolved_example : (rest : List Payload) × (parked.resolved ≡ [] ++ (first ∷ rest))
unfolding is_acked
is_acked-resolved_example =
    is_acked-resolved ring engine-RoundTrips [] refl Reach-parked (omega arith) [] (second ∷ [])
      first refl refl

-- The acknowledgment does not cover the command that is parked.
second-parked : is_acked engine ring 2 parked.chan ≡ false
unfolding is_acked
second-parked = refl

abbrev settled : Sys
settled = record {
  chan = record start { next_seq = 2; processed_seq = 2; last_ack = 2 };
  pushed = first ∷ second ∷ [];
  resolved = first ∷ second ∷ [];
  parked = [];
  acked = 2;
  since = 0;
}

Reach-settled : Reach ring engine-RoundTrips (initial ring engine-RoundTrips []) settled
unfolding advance_pending after_drain
Reach-settled = next (next Reach-parked (settles second refl)) publishes

drained_is_acked_example : is_acked engine ring 2 settled.chan ≡ true
drained_is_acked_example =
    drained_is_acked ring engine-RoundTrips [] refl Reach-settled (omega arith) refl refl refl 2
      (omega arith)
