-- ===== src/Requests/Housekeeping.antt =====
-- src/clap/plugin/main_thread/housekeeping.rs: `handle_pending_model_load` and what it calls, and the
-- ends that feed it, the preset-load extension and the loader's worker.
use nam_plug.Prelude.{
  ℕ, ◌+◌, Bool, true, false, not, ◌&&◌, ◌||◌, Option, none, some, List, [], ◌∷◌, ◌++◌, length, ltb,
  leb, ◌==◌,
}
use nam_plug.Scheduler.{wrap64}
use nam_plug.Requests.{
  Loading, ModelRequestOrigin, gui, preset, PendingModelRequest, ModelLoaderJob, Outcome, prepared,
  failed_load, PreparedModelResult, Notice, notify_preset_loaded, notify_preset_error,
  max_pending_model_requests, Pipeline, Attempt,
}

module _ {T : Loading} where
  -- Both queues of requests refuse at the limit.
  unfoldable pub push_request :
      PendingModelRequest T → List (PendingModelRequest T) → List (PendingModelRequest T) × Bool
  push_request r q = elim (ltb (length q) max_pending_model_requests) [
    | true ↦ (q ++ (r ∷ []), true)
    | false ↦ (q, false)
  ]

  -- `load_from_location`, after its checks of the location: false is the error to the host.
  unfoldable pub load_preset : T.PathBuf → T.Preset → Pipeline T → Pipeline T × Bool
  unfolding push_request
  load_preset path p s =
      let (q, ok) =
        push_request (record { path = path; origin = preset p }) s.pending_model_requests in
      elim ok [
        | true ↦ (record s { pending_model_requests = q; callbacks = s.callbacks + 1 }, true)
        | false ↦ (s, false)
      ]

  unfoldable pub queue_selection : Option T.PathBuf → Pipeline T → Pipeline T
  unfolding push_request
  queue_selection none s = s
  queue_selection (some path) s = record s {
    dialog_state = none;
    ui_dialog_open = false;
    pending_model_requests =
        (push_request (record { path = path; origin = gui }) s.pending_model_requests).0;
  }

  unfoldable pub propagate_dialog : Pipeline T → Pipeline T
  unfolding queue_selection
  propagate_dialog s = queue_selection s.dialog_state s

  abbrev pub is_gui : ModelRequestOrigin T → Bool
  is_gui gui = true
  is_gui (preset p) = false

  abbrev pub is_empty : List (ModelLoaderJob T) → Bool
  is_empty [] = true
  is_empty (j ∷ js) = false

  -- `pending.retain(|j| !matches!(j.origin, Gui))`.
  abbrev pub retain_presets : List (ModelLoaderJob T) → List (ModelLoaderJob T)
  retain_presets [] = []
  retain_presets (j ∷ js) = elim (is_gui j.origin) [
    | true ↦ retain_presets js
    | false ↦ j ∷ retain_presets js
  ]

  abbrev pub pop_front :
      List (ModelLoaderJob T) → Option (ModelLoaderJob T) × List (ModelLoaderJob T)
  pop_front [] = (none, [])
  pop_front (j ∷ js) = (some j, js)

  abbrev pub evict_full :
      List (ModelLoaderJob T) → Option (ModelLoaderJob T) × List (ModelLoaderJob T)
  evict_full js = elim (leb max_pending_model_requests (length js)) [
    | true ↦ pop_front js
    | false ↦ (none, js)
  ]

  abbrev pub supersede : ModelRequestOrigin T → List (ModelLoaderJob T) → List (ModelLoaderJob T)
  supersede gui js = retain_presets js
  supersede (preset p) js = js

  abbrev pub error_notice : ModelRequestOrigin T → List (Notice T)
  error_notice gui = []
  error_notice (preset p) = notify_preset_error p ∷ []

  abbrev pub evicted_notice : Option (ModelLoaderJob T) → List (Notice T)
  evicted_notice none = []
  evicted_notice (some j) = error_notice j.origin

  abbrev pub outcome_notice : ModelRequestOrigin T → Outcome T → List (Notice T)
  outcome_notice gui o = []
  outcome_notice (preset p) (prepared m) = notify_preset_loaded p ∷ []
  outcome_notice (preset p) (failed_load e) = notify_preset_error p ∷ []

  unfoldable pub maybe_finish_loading_ui : Pipeline T → Pipeline T
  maybe_finish_loading_ui s = record s {
    ui_loading = s.ui_loading && (s.model_worker_busy || not (is_empty s.pending_async_loads));
  }

  -- Its rates are captured when it is dispatched.
  abbrev pub new_job : PendingModelRequest T → ℕ → ModelLoaderJob T
  new_job req generation = record {
    path = req.path;
    origin = req.origin;
    generation = generation;
    sample_rate = 0;
    buffer_size = 0;
  }

  -- `accept_model_request` for a real path.
  unfoldable pub accept_load : PendingModelRequest T → Pipeline T → Pipeline T
  accept_load req s =
      let generation = wrap64 (s.model_generation + 1) in
      let (evicted, kept) = evict_full (supersede req.origin s.pending_async_loads) in
      record s {
        ui_dialog_open = false;
        model_generation = generation;
        ui_loading = true;
        dispatched_model_generation =
            elim (is_gui req.origin && s.model_worker_busy && s.dispatched_model_is_gui) [
              | true ↦ 0
              | false ↦ s.dispatched_model_generation
            ];
        pending_async_loads = kept ++ (new_job req generation ∷ []);
        notices = s.notices ++ evicted_notice evicted;
      }

  unfoldable pub accept_model_request : PendingModelRequest T → Pipeline T → Pipeline T
  unfolding accept_load maybe_finish_loading_ui
  accept_model_request req s =
      elim (T.eq_path req.path T.dialog_cancelled_sentinel
        || T.eq_path req.path T.dialog_timedout_sentinel) [
          | true ↦ maybe_finish_loading_ui (record s { ui_dialog_open = false })
          | false ↦ accept_load req s
        ]

  abbrev pub has_more : List (PendingModelRequest T) → ℕ
  has_more [] = 0
  has_more (r ∷ rs) = 1

  unfoldable pub accept_front : List (PendingModelRequest T) → Pipeline T → Pipeline T
  unfolding accept_model_request
  accept_front [] s = s
  accept_front (req ∷ rest) s =
      let t = accept_model_request req (record s { pending_model_requests = rest }) in
      record t { callbacks = t.callbacks + has_more rest }

  unfoldable pub accept_queued_model_request : Pipeline T → Pipeline T
  unfolding accept_front
  accept_queued_model_request s = accept_front s.pending_model_requests s

  abbrev pub commit : Outcome T → ℕ → List (T.PreparedModel × ℕ) → List (T.PreparedModel × ℕ)
  commit (prepared m) generation log = log ++ ((m, generation) ∷ [])
  commit (failed_load e) generation log = log

  -- `load_model` takes a generation of its own when it commits.
  abbrev pub sync_generation : Outcome T → ℕ → ℕ
  sync_generation (prepared m) generation = wrap64 (generation + 1)
  sync_generation (failed_load e) generation = generation

  unfoldable pub run_sync_model_load : ModelRequestOrigin T → Outcome T → Pipeline T → Pipeline T
  run_sync_model_load origin o s = record s {
    ui_loading = false;
    model_generation = sync_generation o s.model_generation;
    committed = commit o (sync_generation o s.model_generation) s.committed;
    notices = s.notices ++ outcome_notice origin o;
  }

  unfoldable pub settle_result : PreparedModelResult T → Pipeline T → Pipeline T
  settle_result r s =
      elim (r.generation == 0 || not (r.generation == s.dispatched_model_generation)) [
        | true ↦ record s {
          model_result_slot = none;
          model_worker_busy = false;
          dispatched_model_generation = 0;
          dispatched_model_is_gui = false;
        }
        | false ↦ record s {
          model_result_slot = none;
          model_worker_busy = false;
          dispatched_model_generation = 0;
          dispatched_model_is_gui = false;
          ui_loading = not (is_empty s.pending_async_loads);
          committed = commit r.outcome r.generation s.committed;
          notices = s.notices ++ outcome_notice r.origin r.outcome;
        }
      ]

  unfoldable pub settle_slot : Option (PreparedModelResult T) → Pipeline T → Pipeline T
  unfolding settle_result
  settle_slot none s = s
  settle_slot (some r) s = settle_result r s

  unfoldable pub poll_model_loader_result : Pipeline T → Pipeline T
  unfolding settle_slot
  poll_model_loader_result s = settle_slot s.model_result_slot s

  -- The worker is there or is spawned, and takes the job; otherwise the load runs here.
  unfoldable pub send_job : Attempt T → ModelLoaderJob T → Pipeline T → Pipeline T
  unfolding run_sync_model_load
  send_job a job s = elim ((s.model_loader && not a.is_finished) || a.spawns) [
    | false ↦ run_sync_model_load job.origin a.sync_outcome s
    | true ↦ elim a.accepts [
      | true ↦ record s {
        model_loader = true;
        in_worker = some job;
        model_worker_busy = true;
        dispatched_model_generation = job.generation;
        dispatched_model_is_gui = is_gui job.origin;
      }
      | false ↦ run_sync_model_load job.origin a.sync_outcome (record s { model_loader = false })
    ]
  ]

  unfoldable pub dispatch_front :
      Attempt T → Bool → List (ModelLoaderJob T) → Pipeline T → Pipeline T
  unfolding send_job
  dispatch_front a true js s = s
  dispatch_front a false [] s = s
  dispatch_front a false (job ∷ rest) s =
      send_job a (record job { sample_rate = a.sample_rate; buffer_size = a.buffer_size })
        (record s { pending_async_loads = rest })

  unfoldable pub dispatch_pending_model_load : Attempt T → Pipeline T → Pipeline T
  unfolding dispatch_front
  dispatch_pending_model_load a s = dispatch_front a s.model_worker_busy s.pending_async_loads s

  unfoldable pub handle_pending_model_load : Attempt T → Pipeline T → Pipeline T
  unfolding propagate_dialog accept_queued_model_request poll_model_loader_result
      dispatch_pending_model_load
  handle_pending_model_load a s =
      dispatch_pending_model_load a
        (poll_model_loader_result (accept_queued_model_request (propagate_dialog s)))

  -- The worker takes the job and publishes its outcome, while the instance lives.
  unfoldable pub publish_job : Outcome T → Option (ModelLoaderJob T) → Pipeline T → Pipeline T
  publish_job o none s = s
  publish_job o (some job) s = record s {
    in_worker = none;
    callbacks = s.callbacks + 1;
    model_result_slot =
        some (record { generation = job.generation; origin = job.origin; outcome = o });
  }

  unfoldable pub publish : Outcome T → Pipeline T → Pipeline T
  unfolding publish_job
  publish o s = publish_job o s.in_worker s

  -- A panic while the worker polls for rebuilds: the slot is overwritten with generation 0, whatever it
  -- held.
  unfoldable pub publish_panic : T.NamDiagnostic → Pipeline T → Pipeline T
  publish_panic e s = record s {
    model_result_slot = some (record { generation = 0; origin = gui; outcome = failed_load e });
    ui_loading = false;
    callbacks = s.callbacks + 1;
  }
