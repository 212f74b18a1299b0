-- ===== src/Scheduler.antt =====
-- src/clap/plugin/command_scheduler.rs: `CoalesceBuffer`, `CommandProducer`, `CommandConsumer`.
-- Both ends and the two shared atomics stand in one record, `Channel`; each function is one call of
-- one end. Sequence numbers are `u64`, and wrap as written in `wrap64`.
pub mod Coalesce
pub mod Trace
pub mod Delivery
pub mod Order
pub mod Burst
pub mod Acks
mod Tests
use nam_plug.Prelude.{
  ℕ, ◌+◌, ◌-◌, ◌%◌, ◌^◌, Bool, true, false, not, Option, none, some, ltb, leb, ◌==◌, if◌then◌else◌,
}
use nam_plug.Float.{F64, u32_as_f32, is_zero, Word, zero_word, set_bit, is_zero_word, update}
use nam_plug.Engine.{Engine, Params, Ring}
use nam_plug.Payload.{ClapParamPayload, params}

abbrev pub wrap64 : ℕ → ℕ
wrap64 n = n % 2 ^ 64

abbrev pub param_count : ℕ
param_count = 9

pub record CoalesceBuffer : Type 0 where
  pub slots : ℕ → Option F64
  pub dirty_mask : Word

abbrev pub default_buffer : CoalesceBuffer
default_buffer = record { slots = λ _. none; dirty_mask = zero_word }

unfoldable pub set : ℕ → F64 → CoalesceBuffer → CoalesceBuffer
set param_id v b =
    if ltb param_id param_count
    then record {
      slots = update b.slots param_id (some v);
      dirty_mask = set_bit param_id b.dirty_mask;
    }
    else b

-- `mask & (1 << k) != 0 && let Some(v) = self.slots[k].take()`, with the slots that it leaves.
take_slot : Word → ℕ → (ℕ → Option F64) → Option F64 × (ℕ → Option F64)
take_slot mask k slots = if mask k then (slots k, update slots k none) else (none, slots)

abbrev or_default {ℓ} : {A : Type ℓ} → Option F64 → (F64 → A) → A → A
or_default none f d = d
or_default (some v) f d = f v

module _ (E : Engine) where
  -- `take_snapshot` after its early return: every slot is taken, then the mask is cleared.
  pub take_all : CoalesceBuffer → Params E × CoalesceBuffer
  unfolding take_slot
  take_all b =
      let mask = b.dirty_mask in
      let (v0, s0) = take_slot mask 0 b.slots in
      let (v1, s1) = take_slot mask 1 s0 in
      let (v2, s2) = take_slot mask 2 s1 in
      let (v3, s3) = take_slot mask 3 s2 in
      let (v4, s4) = take_slot mask 4 s3 in
      let (v5, s5) = take_slot mask 5 s4 in
      let (v6, s6) = take_slot mask 6 s5 in
      let (v7, s7) = take_slot mask 7 s6 in
      (
        record {
          input_gain_db = or_default v0 (λ v. v) E.default.input_gain_db;
          output_gain_db = or_default v1 (λ v. v) E.default.output_gain_db;
          gate_threshold_db = or_default v2 (λ v. v) E.default.gate_threshold_db;
          bypass = or_default v3 (λ v. not (is_zero v)) E.default.bypass;
          adaptive_compute = or_default v4 E.adaptive_from E.default.adaptive_compute;
          slim_override = or_default v5 E.slim_from E.default.slim_override;
          oversample = or_default v6 E.factor_from E.default.oversample;
          activation_precision = or_default v7 E.precision_from E.default.activation_precision;
        },
        record { slots = s7; dirty_mask = zero_word },
      )

  pub take_snapshot : CoalesceBuffer → Option (Params E) × CoalesceBuffer
  take_snapshot b =
      if is_zero_word 16 b.dirty_mask then (none, b) else (some (take_all b).0, (take_all b).1)

  -- The eight `set` calls that `push_params` and `restore_snapshot` share, in their order.
  unfoldable pub restore_snapshot : Params E → CoalesceBuffer → CoalesceBuffer
  unfolding set
  restore_snapshot p b = set 7 (u32_as_f32 (E.precision_as p.activation_precision)) (
      set 6 (u32_as_f32 (E.factor_as p.oversample)) (
        set 5 (u32_as_f32 (E.slim_as p.slim_override)) (
          set 4 (u32_as_f32 (E.adaptive_as p.adaptive_compute)) (
            set 3 (if p.bypass then u32_as_f32 1 else u32_as_f32 0)
              (set 2 p.gate_threshold_db (set 1 p.output_gain_db (set 0 p.input_gain_db b)))))))

pub data Pushed : Type 0 where
  ok : ℕ → Pushed
  full : Pushed

module _ (E : Engine) (R : Ring (ClapParamPayload E)) where
  pub record Channel : Type 0 where
    pub queue : R.Queue
    pub next_seq : ℕ
    pub last_ack : ℕ
    pub coalescing : CoalesceBuffer
    pub processed_seq : ℕ

  -- `push_params`: coalesces, and says whether a new batch was begun.
  unfoldable pub push_params : Params E → Channel → Channel × Bool
  unfolding restore_snapshot
  push_params p c = (
    record c { coalescing = restore_snapshot E p c.coalescing },
    is_zero_word 16 c.coalescing.dirty_mask,
  )

  -- The push of one payload: its sequence number is consumed only if it was queued.
  pub push_payload : ClapParamPayload E → Channel → Channel × Pushed
  push_payload a c = elim (R.push c.queue a) [
    | some q ↦
        (record c { queue = q; next_seq = wrap64 (c.next_seq + 1) }, ok (wrap64 (c.next_seq + 1)))
    | none ↦ (c, full)
  ]

  -- What `force_flush` does with the answer to its push: a refused snapshot is put back.
  keep_refused : Params E → Channel × Pushed → Channel × Pushed
  keep_refused p (d, ok seq) = (d, ok seq)
  keep_refused p (d, full) = (record d { coalescing = restore_snapshot E p d.coalescing }, full)

  flush_snapshot : Option (Params E) → Channel → Channel × Pushed
  unfolding keep_refused
  flush_snapshot none c = (c, ok 0)
  flush_snapshot (some p) c = keep_refused p (push_payload (params p) c)

  pub force_flush : Channel → Channel × Pushed
  unfolding flush_snapshot
  force_flush c =
      let (snapshot, b) = take_snapshot E c.coalescing in
      flush_snapshot snapshot (record c { coalescing = b })

  -- `try_push_command`, which hands the command back with `full`; `push_command` drops it.
  push_after : ClapParamPayload E → Channel × Pushed → Channel × Pushed
  push_after a (d, ok _) = push_payload a d
  push_after a (d, full) = (d, full)

  pub try_push_command : ClapParamPayload E → Channel → Channel × Pushed
  unfolding push_after
  try_push_command a c = push_after a (force_flush c)

  unfoldable pub is_acked : ℕ → Channel → Bool
  is_acked seq c = leb seq c.last_ack

  -- `CommandConsumer::new` seeds its counter from the shared acknowledgment.
  unfoldable pub new_consumer : Channel → Channel
  new_consumer c = record c { processed_seq = c.last_ack }

  -- `pop_boxed`, the one place where a pop advances the counter.
  unfoldable pub pop_boxed : Channel → Option (ClapParamPayload E × Channel)
  pop_boxed c = elim (R.pop c.queue) [
    | some (a, q) ↦ some (a, record c { queue = q; processed_seq = wrap64 (c.processed_seq + 1) })
    | none ↦ none
  ]

  unfoldable pub rollback_last_pop : Channel → Channel
  rollback_last_pop c = record c { processed_seq = wrap64 (c.processed_seq + 2 ^ 64 - 1) }

  unfoldable pub advance_pending : Channel → Channel
  advance_pending c = record c { processed_seq = wrap64 (c.processed_seq + 1) }

  unfoldable pub ack_processed : Channel → Channel
  ack_processed c = record c { last_ack = c.processed_seq }

  -- `ClapCommandSwapHandler::after_drain` (src/clap/processor/events.rs), where `resolved` counts the
  -- payloads that the drain has installed or discarded.
  unfoldable pub after_drain : ℕ → Channel → Channel
  after_drain resolved c =
      if resolved == 0 then c else record c { last_ack = wrap64 (c.last_ack + resolved) }

  -- What `deactivate` (src/clap/processor/mod.rs) does for a command that is still parked.
  unfoldable pub resolve_parked : Channel → Channel
  unfolding advance_pending ack_processed
  resolve_parked c = ack_processed (advance_pending c)
