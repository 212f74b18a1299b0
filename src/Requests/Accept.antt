-- ===== src/Requests/Accept.antt =====
-- src/clap/plugin/main_thread/housekeeping.rs: a request leaves the queue and becomes a job.
use nam_plug.Prelude.{
  ℕ, ◌+◌, ◌<◌, ◌^◌, ◌≡◌, refl, ◌≢◌, ap, Bool, true, false, ◌&&◌, ◌||◌, Bool-cases, Option, List, [],
  ◌∷◌, length, length-append, All, ◌⊎◌, inl, inr, arith,
}
use nam_plug.Scheduler.{wrap64}
use nam_plug.Requests.{
  Loading, ModelRequestOrigin, gui, preset, PendingModelRequest, ModelLoaderJob,
  PreparedModelResult, Pipeline,
}
use nam_plug.Requests.Housekeeping.{
  accept_load, accept_model_request, accept_front, new_job, evict_full, supersede, is_gui,
  maybe_finish_loading_ui, evicted_notice,
}
use nam_plug.Requests.Account.{
  weigh, of_origin, of_requests, of_jobs-append, of_notices-append, accept-weight, accept-kept,
  Numbered-append, Marked, Flight, idle, working, published, Inv,
}
use nam_plug.Requests.Load.{Keeps}

third_true : (a b c : Bool) → a && b && c ≡ true → c ≡ true
third_true true true c h = h
third_true true false c h = cc h
third_true false b c h = cc h

next_generation : (n : ℕ) → n + 1 < 2 ^ 64 → wrap64 (n + 1) ≢ 0
next_generation n h = λ e. ground (arith, h, e)

module _ {T : Loading} where
  -- A preset's file is not one of the two paths that stand for the dialog's end.
  abbrev pub Plain : PendingModelRequest T → Type 0
  Plain r =
      (r.origin ≡ gui)
      ⊎ ((T.eq_path r.path T.dialog_cancelled_sentinel
            || T.eq_path r.path T.dialog_timedout_sentinel)
          ≡ false)

  pub cancel-Marked :
      (o : ModelRequestOrigin T) (n d e : ℕ) (g : Bool) → g ≡ true → Marked o n d g → Marked o n e g
  cancel-Marked gui n d e g h m = tt
  cancel-Marked (preset p) n d e g h (a, b, c) = cc (h, c)

  -- A request that cancels what is under way cancels no preset's job.
  pub cancel-Flight :
      {busy : Bool} {n : ℕ} {g : Bool} {k : Option (ModelLoaderJob T)}
      {l : Option (PreparedModelResult T)} (b : Bool)
      → (b ≡ true → g ≡ true)
      → Flight busy n g k l
      → Flight busy (elim b [ true ↦ 0 | false ↦ n ]) g k l
  cancel-Flight false h f = f
  cancel-Flight true h (idle a b c) = idle a b c
  cancel-Flight {n = n} {g = g} true h (working a j b c d) =
      working a j b c (cancel-Marked j.origin j.generation n 0 g (h refl) d)
  cancel-Flight {n = n} {g = g} true h (published a r b c d) =
      published a r b c (cancel-Marked r.origin r.generation n 0 g (h refl) d)

  pub accept_load-Keeps :
      (r : PendingModelRequest T) (s : Pipeline T)
      → Inv s
      → s.model_generation + 1 < 2 ^ 64
      → Inv (accept_load r s)
        × ((w : T.Preset → ℕ) → weigh w (accept_load r s) ≡ weigh w s + of_origin w r.origin)
  unfolding accept_load
  accept_load-Keeps r s v h =
      let (q, n) = accept-kept r.origin s.pending_async_loads v.loads_bounded v.numbered in
      (
        record {
          flight =
              cancel-Flight (is_gui r.origin && s.model_worker_busy && s.dispatched_model_is_gui)
                (third_true (is_gui r.origin) s.model_worker_busy s.dispatched_model_is_gui)
                v.flight;
          numbered =
              Numbered-append (evict_full (supersede r.origin s.pending_async_loads)).1 _ n
                (next_generation s.model_generation h, tt);
          loads_bounded = omega (
            arith,
            q,
            length-append (evict_full (supersede r.origin s.pending_async_loads)).1
                (new_job r (wrap64 (s.model_generation + 1)) ∷ []),
          );
          requests_bounded = v.requests_bounded;
        },
        λ w. omega (
          arith,
          accept-weight w r.origin s.pending_async_loads,
          of_jobs-append w (evict_full (supersede r.origin s.pending_async_loads)).1
              (new_job r (wrap64 (s.model_generation + 1)) ∷ []),
          of_notices-append w s.notices
              (evicted_notice (evict_full (supersede r.origin s.pending_async_loads)).0),
        ),
      )

  pub accept_model_request-Keeps :
      (r : PendingModelRequest T) (s : Pipeline T)
      → Inv s
      → Plain r
      → s.model_generation + 1 < 2 ^ 64
      → Inv (accept_model_request r s)
        × ((w : T.Preset → ℕ)
            → weigh w (accept_model_request r s) ≡ weigh w s + of_origin w r.origin)
  unfolding accept_model_request maybe_finish_loading_ui
  accept_model_request-Keeps r s v (inr f) h =
      rw (accept_model_request, f) (accept_load-Keeps r s v h)
  accept_model_request-Keeps r s v (inl g) h =
      elim (Bool-cases (
        T.eq_path r.path T.dialog_cancelled_sentinel
        || T.eq_path r.path T.dialog_timedout_sentinel)) [
          | inr f ↦ rw (accept_model_request, f) (accept_load-Keeps r s v h)
          | inl t ↦
              rw (accept_model_request, t)
                (
                  record {
                    flight = v.flight;
                    numbered = v.numbered;
                    loads_bounded = v.loads_bounded;
                    requests_bounded = v.requests_bounded;
                  },
                  λ w. omega (arith, ap (of_origin w) g),
                )
        ]

  pub accept_front-Keeps :
      (rs : List (PendingModelRequest T)) (s : Pipeline T)
      → Inv s
      → s.pending_model_requests ≡ rs
      → All Plain rs
      → s.model_generation + 1 < 2 ^ 64
      → Keeps s (accept_front rs s)
  unfolding accept_front
  accept_front-Keeps [] s v e p h = (v, λ w. refl)
  accept_front-Keeps (r ∷ rs) s v e (p, _) h =
      let b = v.requests_bounded in
      let k = ap length e in
      let (i, q) =
        accept_model_request-Keeps r (record s { pending_model_requests = rs })
          (record {
            flight = v.flight;
            numbered = v.numbered;
            loads_bounded = v.loads_bounded;
            requests_bounded = omega (arith, b, k);
          })
          p h in
      (
        record {
          flight = i.flight;
          numbered = i.numbered;
          loads_bounded = i.loads_bounded;
          requests_bounded = i.requests_bounded;
        },
        λ w. omega (arith, q w, ap (of_requests w) e),
      )
