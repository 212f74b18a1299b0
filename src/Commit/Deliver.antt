-- ===== src/Commit/Deliver.antt =====
-- src/clap/extensions/state_transaction/commit.rs: `commit`, `atomic_commit`, and the delivery of a
-- restore to the audio thread with its publication on the acknowledgment.
use nam_plug.Prelude.{
  ℕ, ◌+◌, Bool, true, false, not, ◌&&◌, ◌||◌, Option, none, some, ltb, ◌==◌, if◌then◌else◌,
}
use nam_plug.Float.{u32_as_f32}
use nam_plug.Engine.{Engine, Ring}
use nam_plug.Dsp.{Dsp}
use nam_plug.Payload.{ClapParamPayload, LoadModelPayload, RestoreTxn, restore_txn}
use nam_plug.Restart.{PendingRestartOs, no_restart, pending, encode, decode}
use nam_plug.Swap.{wrap32}
use nam_plug.Scheduler.{Channel, Pushed, ok, full, try_push_command, is_acked}
use nam_plug.Assets.{Disk, Loader, Result, done, ◌>>=◌}
use nam_plug.Assets.Validate.{RestoreMode, ValidatedRestore}
use nam_plug.Commit.{
  Models, RestoreModelPublish, RestorePublish, PendingRestore, HostCalls, MainThread,
}
use nam_plug.Commit.Package.{build_restore_package}
use nam_plug.Commit.Publish.{publish_restore, local_commit}

abbrev pub called_back : HostCalls → HostCalls
called_back h = record h { callbacks = h.callbacks + 1 }

abbrev pub is_restart : {E : Engine} → PendingRestartOs E → Bool
is_restart no_restart = false
is_restart (pending f) = true

module _ {E : Engine} {K : Disk} (L : Loader E K) (M : Models E K) (D : Dsp E)
    (R : Ring (ClapParamPayload E)) where
  abbrev pub delivered_models : Option (RestoreModelPublish L) → ℕ → ℕ
  delivered_models none n = n
  delivered_models (some m) n = n + 1

  -- `pending_restore = Some(pending)` and `request_callback`.
  abbrev pub keep_pending : PendingRestore L → MainThread L R → MainThread L R
  keep_pending p s = record s { pending_restore = some p; host = called_back s.host }

  -- After the push was accepted: `note_model_delivered` counts a model.
  abbrev pub note_pushed : PendingRestore L → MainThread L R → MainThread L R
  note_pushed p s = record s {
    model_load_counter = delivered_models p.publish.model s.model_load_counter;
  }

  abbrev pub deliver_after :
      PendingRestore L → RestoreTxn E → MainThread L R → Channel E R × Pushed → MainThread L R
  deliver_after p txn s (c, ok seq) =
      keep_pending (record p { txn = none; seq = seq })
        (note_pushed p (record s { cmd_producer = c }))
  deliver_after p txn s (c, full) =
      keep_pending (record p { txn = some txn }) (record s { cmd_producer = c })

  unfoldable pub deliver_txn :
      PendingRestore L → Option (RestoreTxn E) → MainThread L R → MainThread L R
  deliver_txn p none s = keep_pending p s
  deliver_txn p (some txn) s =
      deliver_after p txn s (try_push_command E R (restore_txn txn) s.cmd_producer)

  unfoldable pub deliver_pending_restore : PendingRestore L → MainThread L R → MainThread L R
  unfolding deliver_txn
  deliver_pending_restore p s = deliver_txn p p.txn s

  -- Published once its number is acknowledged, else kept.
  unfoldable pub publish_if : Bool → PendingRestore L → MainThread L R → MainThread L R
  unfolding publish_restore
  publish_if true p s = publish_restore L M D R p.publish s
  publish_if false p s = keep_pending p s

  unfoldable pub publish_acked : PendingRestore L → MainThread L R → MainThread L R
  unfolding publish_if is_acked
  publish_acked p s = publish_if (ltb 0 p.seq && is_acked E R p.seq s.cmd_producer) p s

  abbrev pub flush_after :
      PendingRestore L → RestoreTxn E → MainThread L R → Channel E R × Pushed → MainThread L R
  flush_after p txn s (c, ok seq) =
      publish_acked (record p { txn = none; seq = seq })
        (note_pushed p (record s { cmd_producer = c }))
  flush_after p txn s (c, full) =
      keep_pending (record p { txn = some txn }) (record s { cmd_producer = c })

  unfoldable pub flush_txn :
      PendingRestore L → Option (RestoreTxn E) → MainThread L R → MainThread L R
  unfolding publish_acked
  flush_txn p none s = publish_acked p s
  flush_txn p (some txn) s =
      flush_after p txn s (try_push_command E R (restore_txn txn) s.cmd_producer)

  unfoldable pub flush_slot : Option (PendingRestore L) → MainThread L R → MainThread L R
  unfolding flush_txn
  flush_slot none s = s
  flush_slot (some p) s = flush_txn p p.txn (record s { pending_restore = none })

  unfoldable pub flush_pending_restore : MainThread L R → MainThread L R
  unfolding flush_slot
  flush_pending_restore s = flush_slot s.pending_restore s

  -- Which latencies the transaction would change.
  unfoldable pub stream_latency_differs : Option (LoadModelPayload E) → ℕ → Bool
  stream_latency_differs none current = false
  stream_latency_differs (some m) current = not (D.stream_latency m.new_stream == current)

  abbrev pub pair_latency : Option E.CabSimPair → ℕ
  pair_latency none = 0
  pair_latency (some p) = wrap32 (D.partition_size p)

  unfoldable pub cabsim_latency_differs : Option (Option E.CabSimPair) → ℕ → Bool
  cabsim_latency_differs none current = false
  cabsim_latency_differs (some pair) current = not (pair_latency pair == current)

  unfoldable pub os_differs : RestorePublish L → MainThread L R → Bool
  os_differs p s =
      not (
        D.eq_factor p.params.rt.oversample (E.factor_from (u32_as_f32 s.ui_to_rt.param_oversample)))
      || is_restart (decode D s.pending_restart_os_factor)

  unfoldable pub latency_differs : RestorePublish L → RestoreTxn E → MainThread L R → Bool
  unfolding stream_latency_differs cabsim_latency_differs os_differs
  latency_differs p txn s =
      stream_latency_differs txn.model s.current_stream_latency
      || cabsim_latency_differs txn.ir s.current_cabsim_latency
      || os_differs p s

  -- The package goes to the audio thread at once, and nothing stays staged.
  unfoldable pub commit_continuous :
      RestorePublish L → RestoreTxn E → MainThread L R → MainThread L R
  unfolding deliver_pending_restore
  commit_continuous p txn s =
      deliver_pending_restore
        (record { generation = txn.generation; txn = some txn; publish = p; seq = 0 })
        (record s { staged_restore = none; staged_swap = none })

  -- The package waits for the host to restart the plugin.
  unfoldable pub commit_staged : RestorePublish L → RestoreTxn E → MainThread L R → MainThread L R
  commit_staged p txn s = record s {
    pending_restart_os_factor =
        if os_differs p s
        then encode D (pending p.params.rt.oversample)
        else s.pending_restart_os_factor;
    staged_swap = none;
    staged_restore = some (record { txn = txn; publish = p });
    host = record s.host { restarts = s.host.restarts + 1 };
  }

  unfoldable pub commit_if :
      Bool → RestorePublish L → RestoreTxn E → MainThread L R → MainThread L R
  unfolding commit_continuous commit_staged
  commit_if true p txn s = commit_staged p txn s
  commit_if false p txn s = commit_continuous p txn s

  abbrev pub host_rate_of : ℕ → ℕ
  host_rate_of rate = if rate == 0 then 48000 else rate

  unfoldable pub atomic_commit :
      ValidatedRestore L → RestoreMode → MainThread L R → Result (MainThread L R)
  unfolding build_restore_package latency_differs commit_if
  atomic_commit v mode s =
      build_restore_package L M R v mode (host_rate_of s.sample_rate) s >>= λ (p, txn, t).
      done (commit_if (latency_differs p txn t) p txn t)

  unfoldable pub commit :
      ValidatedRestore L → RestoreMode → MainThread L R → Result (MainThread L R)
  unfolding atomic_commit local_commit
  commit v mode s =
      if s.buffer_size == 0 then done (local_commit L M D R v mode s) else atomic_commit v mode s
