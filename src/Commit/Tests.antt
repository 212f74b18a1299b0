-- ===== src/Commit/Tests.antt =====
-- A restore on the sample engine, first while the plugin is activated.
use nam_plug.Prelude.{◌≡◌, refl, none, some}
use nam_plug.Payload.{RestoreTxn}
use nam_plug.Samples.{engine, dsp, dsp-Factors}
use nam_plug.Restart.{decode}
use nam_plug.Float.{u32_as_f32}
use nam_plug.Assets.{done}
use nam_plug.Assets.Sample.{loader, saved_params, restored}
use nam_plug.Assets.Validate.{full_mode, for_preset, ValidatedRestore}
use nam_plug.Commit.{RestorePublish, PendingRestore, MainThread}
use nam_plug.Commit.Sample.{ring, costs, idle}
use nam_plug.Commit.Package.{publication, build_restore_package}
use nam_plug.Commit.Publish.{publish_restore, local_commit}
use nam_plug.Commit.Deliver.{host_rate_of, flush_pending_restore, commit_continuous, atomic_commit}
use nam_plug.Commit.Same.{SameView, publish_restore-local_commit}
use nam_plug.Commit.Delivered.{Flushed, Unshown, flush_pending_restore-Flushed}
use nam_plug.Commit.Staged.{Committed, atomic_commit-Committed}
use nam_plug.Commit.Superseded.{commit_continuous-forgets}

-- The same parameters, with no asset.
abbrev preset : ValidatedRestore loader
preset = record restored {
  model = none;
  model_path_on_disk = none;
  model_search_path_to_add = none;
  ir = none;
  ir_path_on_disk = none;
}

abbrev txn : RestoreTxn engine
txn = record { generation = 1; model = none; ir = none; params = engine.default }

abbrev older : PendingRestore loader
older = record {
  generation = 1;
  txn = none;
  publish = publication loader costs full_mode saved_params restored;
  seq = 1;
}

abbrev waiting_for_ack : MainThread loader ring
waiting_for_ack = record idle { pending_restore = some older }

publish_restore-local_commit_example :
    SameView loader costs dsp ring
      (publish_restore loader costs dsp ring
        (publication loader costs full_mode idle.params restored)
        idle)
      (local_commit loader costs dsp ring restored full_mode idle)
publish_restore-local_commit_example =
    publish_restore-local_commit loader costs dsp ring full_mode restored idle tt

flush_pending_restore-Flushed_example :
    Flushed loader costs dsp ring older waiting_for_ack
      (flush_pending_restore loader costs dsp ring waiting_for_ack)
flush_pending_restore-Flushed_example =
    flush_pending_restore-Flushed loader costs dsp ring older waiting_for_ack refl

-- The whole restore changes the latency of the stream, so it waits for a restart.
abbrev committed : MainThread loader ring
committed = record idle {
  model_generation = 2;
  restore_generation = 1;
  staged_restore = some (record {
    txn = record {
      generation = 1;
      model = some (record {
        generation = 2;
        model_l = some 1;
        model_r = none;
        new_resampler = 2;
        new_stream = 64;
        model_rate = 44100;
        input_mult_adj = 0;
        output_mult_adj = 0;
        prewarm_cost_ns = some 64;
      });
      ir = some (some 64);
      params = engine.default;
    };
    publish = publication loader costs full_mode saved_params restored;
  });
  host = record { restarts = 1; callbacks = 0; dirty_marks = 0; rescans = 0 };
}

committed_lem : atomic_commit loader costs dsp ring restored full_mode idle ≡ done committed
unfolding atomic_commit decode u32_as_f32
committed_lem = refl

atomic_commit-Committed_example :
    (p : RestorePublish loader) × (txn : RestoreTxn engine) × (u : MainThread loader ring)
    × (build_restore_package loader costs ring restored full_mode
          (host_rate_of loader costs dsp ring idle.sample_rate)
          idle
        ≡ done (p, txn, u))
    × Committed loader costs dsp ring p txn u committed
    × Unshown loader costs dsp ring idle committed
    × (committed.staged_swap ≡ none)
atomic_commit-Committed_example =
    atomic_commit-Committed loader costs dsp ring dsp-Factors restored full_mode idle committed
      committed_lem

commit_continuous-forgets_example :
    let p = publication loader costs for_preset idle.params preset in
    let t = commit_continuous loader costs dsp ring p txn waiting_for_ack in
    (t
      ≡ commit_continuous loader costs dsp ring p txn
          (record waiting_for_ack { pending_restore = none }))
    × (t.model_view ≡ waiting_for_ack.model_view)
    × (q : PendingRestore loader) × (t.pending_restore ≡ some q)
    × (q.publish ≡ p)
    × ((u : MainThread loader ring)
        → (publish_restore loader costs dsp ring q.publish u).model_view ≡ u.model_view)
unfolding publication
commit_continuous-forgets_example =
    commit_continuous-forgets loader costs dsp ring
      (publication loader costs for_preset idle.params preset) txn waiting_for_ack refl refl
