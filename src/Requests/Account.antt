-- ===== src/Requests/Account.antt =====
-- src/clap/plugin/main_thread/housekeeping.rs: where the accepted preset loads are. A weight on presets
-- is summed over them; sums that agree for every weight are sums over the same presets.
use nam_plug.Prelude.{
  ℕ, ◌+◌, ◌≤◌, ◌≡◌, refl, ◌≢◌, ap, ◌∙◌, Bool, true, false, Option, none, some, List, [], ◌∷◌, ◌++◌,
  length, leb, All, arith,
}
use nam_plug.Requests.{
  Loading, ModelRequestOrigin, gui, preset, PendingModelRequest, ModelLoaderJob,
  PreparedModelResult, Notice, notify_preset_loaded, notify_preset_error, Pipeline,
  max_pending_model_requests, Outcome, prepared, failed_load,
}
use nam_plug.Requests.Housekeeping.{
  evict_full, supersede, retain_presets, evicted_notice, error_notice, outcome_notice, is_gui,
}

module _ {T : Loading} (w : T.Preset → ℕ) where
  abbrev pub of_origin : ModelRequestOrigin T → ℕ
  of_origin gui = 0
  of_origin (preset p) = w p

  abbrev pub of_notice : Notice T → ℕ
  of_notice (notify_preset_loaded p) = w p
  of_notice (notify_preset_error p) = w p

  abbrev pub of_requests : List (PendingModelRequest T) → ℕ
  of_requests [] = 0
  of_requests (r ∷ rs) = of_origin r.origin + of_requests rs

  abbrev pub of_jobs : List (ModelLoaderJob T) → ℕ
  of_jobs [] = 0
  of_jobs (j ∷ js) = of_origin j.origin + of_jobs js

  abbrev pub of_notices : List (Notice T) → ℕ
  of_notices [] = 0
  of_notices (n ∷ ns) = of_notice n + of_notices ns

  abbrev pub of_job : Option (ModelLoaderJob T) → ℕ
  of_job none = 0
  of_job (some j) = of_origin j.origin

  abbrev pub of_result : Option (PreparedModelResult T) → ℕ
  of_result none = 0
  of_result (some r) = of_origin r.origin

  -- The presets that wait, that are being loaded, and that the host was told of.
  abbrev pub weigh : Pipeline T → ℕ
  weigh s =
      of_requests s.pending_model_requests
      + of_jobs s.pending_async_loads
      + of_job s.in_worker
      + of_result s.model_result_slot
      + of_notices s.notices

  pub of_requests-append :
      (xs ys : List (PendingModelRequest T))
      → of_requests (xs ++ ys) ≡ of_requests xs + of_requests ys
  of_requests-append [] ys = omega arith
  of_requests-append (x ∷ xs) ys = omega (arith, of_requests-append xs ys)

  pub of_jobs-append :
      (xs ys : List (ModelLoaderJob T)) → of_jobs (xs ++ ys) ≡ of_jobs xs + of_jobs ys
  of_jobs-append [] ys = omega arith
  of_jobs-append (x ∷ xs) ys = omega (arith, of_jobs-append xs ys)

  pub of_notices-append :
      (xs ys : List (Notice T)) → of_notices (xs ++ ys) ≡ of_notices xs + of_notices ys
  of_notices-append [] ys = omega arith
  of_notices-append (x ∷ xs) ys = omega (arith, of_notices-append xs ys)

  pub outcome_notice-weight :
      (o : ModelRequestOrigin T) (r : Outcome T) → of_notices (outcome_notice o r) ≡ of_origin o
  outcome_notice-weight gui r = refl
  outcome_notice-weight (preset p) (prepared m) = omega arith
  outcome_notice-weight (preset p) (failed_load e) = omega arith

  error_notice-weight : (o : ModelRequestOrigin T) → of_notices (error_notice o) ≡ of_origin o
  error_notice-weight gui = refl
  error_notice-weight (preset p) = omega arith

  retain_presets-weight : (js : List (ModelLoaderJob T)) → of_jobs (retain_presets js) ≡ of_jobs js
  retain_presets-weight [] = refl
  retain_presets-weight (j ∷ js) = by_origin j.origin refl (retain_presets-weight js)
    where
      by_origin :
          (o : ModelRequestOrigin T)
          → j.origin ≡ o
          → of_jobs (retain_presets js) ≡ of_jobs js
          → of_jobs (retain_presets (j ∷ js)) ≡ of_jobs (j ∷ js)
      by_origin gui e h = rw e (h ∙ omega arith)
      by_origin (preset p) e h = rw e (ap (λ n. w p + n) h)

  supersede-weight :
      (o : ModelRequestOrigin T) (js : List (ModelLoaderJob T))
      → of_jobs (supersede o js) ≡ of_jobs js
  supersede-weight gui js = retain_presets-weight js
  supersede-weight (preset p) js = refl

  evict_full-weight :
      (js : List (ModelLoaderJob T))
      → of_notices (evicted_notice (evict_full js).0) + of_jobs (evict_full js).1 ≡ of_jobs js
  evict_full-weight [] = refl
  evict_full-weight (j ∷ js) = by_test (leb max_pending_model_requests (length (j ∷ js))) refl
    where
      by_test :
          (b : Bool)
          → leb max_pending_model_requests (length (j ∷ js)) ≡ b
          → of_notices (evicted_notice (evict_full (j ∷ js)).0) + of_jobs (evict_full (j ∷ js)).1
            ≡ of_jobs (j ∷ js)
      by_test true t = rw (evict_full, t) (ap (λ n. n + of_jobs js) (error_notice-weight j.origin))
      by_test false f = rw (evict_full, f) (omega arith)

  -- A job that leaves the queue for a new one is told of.
  pub accept-weight :
      (o : ModelRequestOrigin T) (js : List (ModelLoaderJob T))
      → of_notices (evicted_notice (evict_full (supersede o js)).0)
          + of_jobs (evict_full (supersede o js)).1
        ≡ of_jobs js
  accept-weight o js = evict_full-weight (supersede o js) ∙ supersede-weight o js

module _ {T : Loading} where
  -- Every job that waits has a generation.
  abbrev pub Numbered : List (ModelLoaderJob T) → Type 0
  Numbered js = All (λ j. j.generation ≢ 0) js

  -- A preset's job that is under way has the dispatched generation.
  abbrev pub Marked : ModelRequestOrigin T → ℕ → ℕ → Bool → Type 0
  Marked gui n dispatched by_gui = Unit
  Marked (preset p) n dispatched by_gui = (n ≢ 0) × (n ≡ dispatched) × (by_gui ≡ false)

  -- What the worker does, by its flag, the dispatched job and the two places where a job can be.
  pub data Flight (busy : Bool) (dispatched : ℕ) (by_gui : Bool)
      (worker : Option (ModelLoaderJob T)) (slot : Option (PreparedModelResult T)) : Type 0 where
    idle : busy ≡ false → worker ≡ none → slot ≡ none → Flight busy dispatched by_gui worker slot
    working :
        busy ≡ true
        → (j : ModelLoaderJob T) → worker ≡ some j
        → slot ≡ none
        → Marked j.origin j.generation dispatched by_gui
        → Flight busy dispatched by_gui worker slot
    published :
        busy ≡ true
        → (r : PreparedModelResult T) → worker ≡ none
        → slot ≡ some r
        → Marked r.origin r.generation dispatched by_gui
        → Flight busy dispatched by_gui worker slot

  -- One job at most is under way, and both queues keep to their limit.
  pub record Inv (s : Pipeline T) : Type 0 where
    pub flight :
        Flight s.model_worker_busy s.dispatched_model_generation s.dispatched_model_is_gui
          s.in_worker s.model_result_slot
    pub numbered : Numbered s.pending_async_loads
    pub loads_bounded : length s.pending_async_loads ≤ max_pending_model_requests
    pub requests_bounded : length s.pending_model_requests ≤ max_pending_model_requests

  retain_presets-kept :
      (js : List (ModelLoaderJob T))
      → (length (retain_presets js) ≤ length js) × (Numbered js → Numbered (retain_presets js))
  retain_presets-kept [] = (omega arith, λ n. n)
  retain_presets-kept (j ∷ js) = by_test (is_gui j.origin) refl (retain_presets-kept js)
    where
      by_test :
          (b : Bool)
          → is_gui j.origin ≡ b
          → (length (retain_presets js) ≤ length js) × (Numbered js → Numbered (retain_presets js))
          → (length (retain_presets (j ∷ js)) ≤ length (j ∷ js))
            × (Numbered (j ∷ js) → Numbered (retain_presets (j ∷ js)))
      by_test true e (h, k) = rw (retain_presets, e) (omega (arith, h), λ n. k n.1)
      by_test false e (h, k) = rw (retain_presets, e) (omega (arith, h), λ n. (n.0, k n.1))

  evict_full-kept :
      (js : List (ModelLoaderJob T))
      → length js ≤ max_pending_model_requests
      → (length (evict_full js).1 + 1 ≤ max_pending_model_requests)
        × (Numbered js → Numbered (evict_full js).1)
  evict_full-kept [] h = (omega arith, λ n. n)
  evict_full-kept (j ∷ js) h = by_test (leb max_pending_model_requests (length (j ∷ js))) refl
    where
      by_test :
          (b : Bool)
          → leb max_pending_model_requests (length (j ∷ js)) ≡ b
          → (length (evict_full (j ∷ js)).1 + 1 ≤ max_pending_model_requests)
            × (Numbered (j ∷ js) → Numbered (evict_full (j ∷ js)).1)
      by_test true t = rw (evict_full, t) (omega (arith, h), λ n. n.1)
      by_test false f = rw (evict_full, f) (ground (arith, f), λ n. n)

  -- There is room for the new job.
  pub accept-kept :
      (o : ModelRequestOrigin T) (js : List (ModelLoaderJob T))
      → length js ≤ max_pending_model_requests
      → Numbered js
      → (length (evict_full (supersede o js)).1 + 1 ≤ max_pending_model_requests)
        × Numbered (evict_full (supersede o js)).1
  accept-kept gui js h n =
      let (a, b) = retain_presets-kept js in
      let (c, d) = evict_full-kept (retain_presets js) (omega (arith, a, h)) in (c, d (b n))
  accept-kept (preset p) js h n = let (c, d) = evict_full-kept js h in (c, d n)

  pub Numbered-append :
      (js ks : List (ModelLoaderJob T)) → Numbered js → Numbered ks → Numbered (js ++ ks)
  Numbered-append [] ks a b = b
  Numbered-append (j ∷ js) ks (x, a) b = (x, Numbered-append js ks a b)
