-- ===== src/Requests/Load.antt =====
-- src/clap/plugin/main_thread/housekeeping.rs: the end of a load and the start of the next.
use nam_plug.Prelude.{
  ℕ, ◌+◌, ◌≡◌, refl, ◌≢◌, ap, Bool, true, false, not, ◌&&◌, ◌||◌, Bool-cases, Option, none, some,
  List, [], ◌∷◌, length, ◌==◌, inl, inr, arith,
}
use nam_plug.Requests.{
  Loading, ModelRequestOrigin, gui, preset, ModelLoaderJob, PreparedModelResult, Pipeline, Attempt,
  Outcome,
}
use nam_plug.Requests.Housekeeping.{
  publish_panic, poll_model_loader_result, run_sync_model_load, settle_slot, settle_result,
  dispatch_front, send_job, is_gui, outcome_notice,
}
use nam_plug.Requests.Account.{
  weigh, of_result, of_job, of_origin, of_jobs, of_notices-append, outcome_notice-weight, Numbered,
  Marked, Flight, idle, working, published, Inv,
}

module _ {T : Loading} where
  -- The step from `s` to `t` keeps the invariant and every preset.
  abbrev pub Keeps : Pipeline T → Pipeline T → Type 0
  Keeps s t = Inv t × ((w : T.Preset → ℕ) → weigh w t ≡ weigh w s)

  pub run_sync_model_load-Keeps :
      (o : ModelRequestOrigin T) (r : Outcome T) (s : Pipeline T)
      → Inv s
      → Inv (run_sync_model_load o r s)
        × ((w : T.Preset → ℕ) → weigh w (run_sync_model_load o r s) ≡ weigh w s + of_origin w o)
  unfolding run_sync_model_load
  run_sync_model_load-Keeps o r s v = (
    record {
      flight = v.flight;
      numbered = v.numbered;
      loads_bounded = v.loads_bounded;
      requests_bounded = v.requests_bounded;
    },
    λ w.
        omega
          (arith, of_notices-append w s.notices (outcome_notice o r), outcome_notice-weight w o r),
  )

  pub in_slot :
      {busy : Bool} {n : ℕ} {g : Bool} {k : Option (ModelLoaderJob T)}
      {l : Option (PreparedModelResult T)}
      → (r : PreparedModelResult T) → Flight busy n g k l
      → l ≡ some r
      → (k ≡ none) × Marked r.origin r.generation n g
  in_slot r (idle a b c) h = cc (c, h)
  in_slot r (working a j b c d) h = cc (c, h)
  in_slot r (published a q b c d) h = let e : q ≡ r = cc (c, h) in (b, rw (← e) d)

  pub superseded-weight :
      (w : T.Preset → ℕ) (o : ModelRequestOrigin T) (n d : ℕ) (g : Bool)
      → Marked o n d g
      → (n == 0 || not (n == d)) ≡ true
      → of_origin w o ≡ 0
  superseded-weight w gui n d g m t = refl
  superseded-weight w (preset p) n d g (a, b, c) t = ground (arith, a, b, t)

  pub settle_result-Keeps :
      (r : PreparedModelResult T) (s : Pipeline T)
      → Inv s
      → s.model_result_slot ≡ some r
      → Keeps s (settle_result r s)
  unfolding settle_result
  settle_result-Keeps r s v h =
      let (a, b) = in_slot r v.flight h in
      elim (Bool-cases (r.generation == 0 || not (r.generation == s.dispatched_model_generation))) [
        | inl t ↦
            rw (settle_result, t)
              (
                record {
                  flight = idle refl a refl;
                  numbered = v.numbered;
                  loads_bounded = v.loads_bounded;
                  requests_bounded = v.requests_bounded;
                },
                λ w. omega (
                  arith,
                  ap (of_result w) h,
                  superseded-weight w r.origin r.generation s.dispatched_model_generation
                      s.dispatched_model_is_gui b t,
                ),
              )
        | inr f ↦
            rw (settle_result, f)
              (
                record {
                  flight = idle refl a refl;
                  numbered = v.numbered;
                  loads_bounded = v.loads_bounded;
                  requests_bounded = v.requests_bounded;
                },
                λ w. omega (
                  arith,
                  ap (of_result w) h,
                  of_notices-append w s.notices (outcome_notice r.origin r.outcome),
                  outcome_notice-weight w r.origin r.outcome,
                ),
              )
      ]

  pub settle_slot-Keeps :
      (l : Option (PreparedModelResult T)) (s : Pipeline T)
      → Inv s
      → s.model_result_slot ≡ l
      → Keeps s (settle_slot l s)
  unfolding settle_slot
  settle_slot-Keeps none s v h = (v, λ w. refl)
  settle_slot-Keeps (some r) s v h = settle_result-Keeps r s v h

  pub at_rest :
      {busy : Bool} {n : ℕ} {g : Bool} {k : Option (ModelLoaderJob T)}
      {l : Option (PreparedModelResult T)}
      → Flight busy n g k l
      → busy ≡ false
      → (k ≡ none) × (l ≡ none)
  at_rest (idle a b c) h = (b, c)
  at_rest (working a j b c d) h = cc (a, h)
  at_rest (published a q b c d) h = cc (a, h)

  pub sent-Marked : (o : ModelRequestOrigin T) (n : ℕ) → n ≢ 0 → Marked o n n (is_gui o)
  sent-Marked gui n h = tt
  sent-Marked (preset p) n h = (h, refl, refl)

  -- The worker is idle when a job is sent.
  pub send_job-Keeps :
      (a : Attempt T) (j : ModelLoaderJob T) (s : Pipeline T)
      → Inv s
      → s.model_worker_busy ≡ false
      → j.generation ≢ 0
      → Inv (send_job a j s)
        × ((w : T.Preset → ℕ) → weigh w (send_job a j s) ≡ weigh w s + of_origin w j.origin)
  unfolding send_job
  send_job-Keeps a j s v b n =
      elim (Bool-cases ((s.model_loader && not a.is_finished) || a.spawns)) [
        | inr f ↦ rw (send_job, f) (run_sync_model_load-Keeps j.origin a.sync_outcome s v)
        | inl t ↦ elim (Bool-cases a.accepts) [
          | inr f ↦
              rw (send_job, t, f)
                (run_sync_model_load-Keeps j.origin a.sync_outcome
                  (record s { model_loader = false })
                  (record {
                    flight = v.flight;
                    numbered = v.numbered;
                    loads_bounded = v.loads_bounded;
                    requests_bounded = v.requests_bounded;
                  }))
          | inl u ↦
              rw (send_job, t, u)
                (let (k, l) = at_rest v.flight b in
                  (
                    record {
                      flight = working refl j refl l (sent-Marked j.origin j.generation n);
                      numbered = v.numbered;
                      loads_bounded = v.loads_bounded;
                      requests_bounded = v.requests_bounded;
                    },
                    λ w. omega (arith, ap (of_job w) k),
                  ))
        ]
      ]

  pub Numbered-as : (js ks : List (ModelLoaderJob T)) → js ≡ ks → Numbered js → Numbered ks
  Numbered-as js ks e n = rw (← e) n

  pub dispatch_front-Keeps :
      (a : Attempt T) (b : Bool) (js : List (ModelLoaderJob T)) (s : Pipeline T)
      → Inv s
      → s.model_worker_busy ≡ b
      → s.pending_async_loads ≡ js
      → Keeps s (dispatch_front a b js s)
  unfolding dispatch_front
  dispatch_front-Keeps a true js s v h e = (v, λ w. refl)
  dispatch_front-Keeps a false [] s v h e = (v, λ w. refl)
  dispatch_front-Keeps a false (j ∷ js) s v h e =
      let n = Numbered-as (s.pending_async_loads) (j ∷ js) e v.numbered in
      let m = v.loads_bounded in
      let k = ap length e in
      let (i, q) =
        send_job-Keeps a (record j { sample_rate = a.sample_rate; buffer_size = a.buffer_size })
          (record s { pending_async_loads = js })
          (record {
            flight = v.flight;
            numbered = n.1;
            loads_bounded = omega (arith, m, k);
            requests_bounded = v.requests_bounded;
          })
          h n.0 in
      (i, λ w. omega (arith, q w, ap (of_jobs w) e))

  -- When the worker panics while a preset's result waits in the slot, the next poll discards what the
  -- panic left, the host is told nothing, and the preset is counted no longer.
  pub publish_panic-loses :
      (e : T.NamDiagnostic) (r : PreparedModelResult T) (s : Pipeline T)
      → s.model_result_slot ≡ some r
      → ((poll_model_loader_result (publish_panic e s)).notices ≡ s.notices)
        × ((poll_model_loader_result (publish_panic e s)).committed ≡ s.committed)
        × ((w : T.Preset → ℕ)
            → weigh w (poll_model_loader_result (publish_panic e s)) + of_origin w r.origin
              ≡ weigh w s)
  unfolding poll_model_loader_result publish_panic
  publish_panic-loses e r s h = (refl, refl, λ w. omega (arith, ap (of_result w) h))
