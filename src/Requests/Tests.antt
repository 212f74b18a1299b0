-- ===== src/Requests/Tests.antt =====
-- Presets and picked files, by number: 0 and 1 stand for the dialog's end.
use nam_plug.Prelude.{
  ℕ, ◌+◌, ◌==◌, ◌≡◌, refl, true, false, none, some, [], ◌∷◌, length, inr, ◌⊎◌, arith,
}
use nam_plug.Requests.{
  Loading, PreparedModelResult, Pipeline, Attempt, gui, preset, prepared, failed_load,
  max_pending_model_requests,
}
use nam_plug.Requests.Housekeeping.{
  publish_panic, poll_model_loader_result, handle_pending_model_load, publish, load_preset,
}
use nam_plug.Requests.Account.{Inv, weigh, working}
use nam_plug.Requests.Load.{Keeps, publish_panic-loses}
use nam_plug.Requests.Answered.{handle_pending_model_load-Keeps, publish-Keeps, load_preset-Taken}

abbrev files : Loading
files = record {
  PathBuf = ℕ;
  Preset = ℕ;
  PreparedModel = ℕ;
  NamDiagnostic = ℕ;
  eq_path = λ a b. a == b;
  dialog_cancelled_sentinel = 0;
  dialog_timedout_sentinel = 1;
}

-- A preset is being loaded, a picked file and a preset wait, and the user has picked another.
abbrev loading : Pipeline files
loading = record {
  pending_model_requests = record { path = 8; origin = preset 80 } ∷ [];
  pending_async_loads =
      record { path = 7; origin = gui; generation = 2; sample_rate = 0; buffer_size = 0 } ∷ [];
  model_worker_busy = true;
  dispatched_model_generation = 1;
  dispatched_model_is_gui = false;
  model_loader = true;
  in_worker = some (record {
    path = 6;
    origin = preset 60;
    generation = 1;
    sample_rate = 48000;
    buffer_size = 64;
  });
  model_result_slot = none;
  model_generation = 2;
  dialog_state = some 9;
  ui_dialog_open = true;
  ui_loading = true;
  callbacks = 0;
  committed = [];
  notices = [];
}

abbrev attempt : Attempt files
attempt = record {
  sample_rate = 48000;
  buffer_size = 64;
  is_finished = false;
  spawns = true;
  accepts = true;
  sync_outcome = failed_load 0;
}

loading-Inv : Inv loading
loading-Inv = record {
  flight = working refl _ refl refl (omega arith, refl, refl);
  numbered = (omega arith, tt);
  loads_bounded = omega arith;
  requests_bounded = omega arith;
}

handle_pending_model_load-Keeps_example : Keeps loading (handle_pending_model_load attempt loading)
handle_pending_model_load-Keeps_example =
    handle_pending_model_load-Keeps attempt loading loading-Inv (inr refl, tt) (omega arith)

publish-Keeps_example : Keeps loading (publish (prepared 3) loading)
publish-Keeps_example = publish-Keeps (prepared 3) loading loading-Inv

load_preset-Taken_example :
    ((load_preset 5 50 loading).1 ≡ true)
      × Inv (load_preset 5 50 loading).0
      × ((w : ℕ → ℕ) → weigh w (load_preset 5 50 loading).0 ≡ weigh w loading + w 50)
    ⊎ (load_preset 5 50 loading ≡ (loading, false))
      × (length loading.pending_model_requests ≡ max_pending_model_requests)
load_preset-Taken_example = load_preset-Taken 5 50 loading loading-Inv

abbrev a_result : PreparedModelResult files
a_result = record { generation = 1; origin = preset 60; outcome = prepared 3 }

abbrev loaded : Pipeline files
loaded = record loading { in_worker = none; model_result_slot = some a_result }

publish_panic-loses_example :
    ((poll_model_loader_result (publish_panic 0 loaded)).notices ≡ [])
    × ((poll_model_loader_result (publish_panic 0 loaded)).committed ≡ [])
    × ((w : ℕ → ℕ)
        → weigh w (poll_model_loader_result (publish_panic 0 loaded)) + w 60 ≡ weigh w loaded)
publish_panic-loses_example = publish_panic-loses 0 a_result loaded refl
