-- ===== src/Requests/Answered.antt =====
-- src/clap/plugin/main_thread/housekeeping.rs: no accepted preset load is forgotten.
use nam_plug.Prelude.{
  ℕ, ◌+◌, ◌≤◌, ◌<◌, ◌^◌, ◌≡◌, refl, ap, ◌∙◌, Bool, true, false, Bool-cases, Option, none, some,
  List, [], ◌∷◌, ◌++◌, length, length-append, ltb, All, ◌⊎◌, inl, inr, arith,
}
use nam_plug.Requests.{
  Loading, gui, preset, PendingModelRequest, ModelLoaderJob, PreparedModelResult, Pipeline, Attempt,
  Outcome, max_pending_model_requests,
}
use nam_plug.Requests.Housekeeping.{
  push_request, load_preset, propagate_dialog, accept_queued_model_request, queue_selection,
  publish_job, poll_model_loader_result, dispatch_pending_model_load, handle_pending_model_load,
  publish,
}
use nam_plug.Requests.Account.{
  weigh, of_result, of_job, of_origin, of_requests, of_requests-append, Marked, Flight, idle,
  working, published, Inv,
}
use nam_plug.Requests.Load.{Keeps, settle_slot-Keeps, dispatch_front-Keeps}
use nam_plug.Requests.Accept.{Plain, accept_front-Keeps}

module _ {T : Loading} where
  push_request-kept :
      (r : PendingModelRequest T) (q : List (PendingModelRequest T))
      → length q ≤ max_pending_model_requests
      → ((push_request r q).1 ≡ false) × ((push_request r q).0 ≡ q)
        ⊎ ((push_request r q).1 ≡ true)
          × ((push_request r q).0 ≡ q ++ (r ∷ []))
          × (length q < max_pending_model_requests)
  unfolding push_request
  push_request-kept r q h = elim (Bool-cases (ltb (length q) max_pending_model_requests)) [
    | inl t ↦ inr (rw (push_request, t) (refl, refl, ground (arith, t)))
    | inr f ↦ inl (rw (push_request, f) (refl, refl))
  ]

  Plain-append :
      (rs : List (PendingModelRequest T)) (r : PendingModelRequest T)
      → All Plain rs
      → Plain r
      → All Plain (rs ++ (r ∷ []))
  Plain-append [] r a p = (p, tt)
  Plain-append (x ∷ rs) r (q, a) p = (q, Plain-append rs r a p)

  -- The requests after `r` was offered: as many, or with `r` at the end.
  abbrev Offered :
      PendingModelRequest T → List (PendingModelRequest T) → List (PendingModelRequest T) → Type 0
  Offered r q d = (d ≡ q) ⊎ ((d ≡ q ++ (r ∷ [])) × (length q < max_pending_model_requests))

  Offered-bounded :
      (r : PendingModelRequest T) (q d : List (PendingModelRequest T))
      → Offered r q d
      → length q ≤ max_pending_model_requests
      → length d ≤ max_pending_model_requests
  Offered-bounded r q d (inl e) h = rw e h
  Offered-bounded r q d (inr (e, k)) h = rw e (omega (arith, k, length-append q (r ∷ [])))

  Offered-Plain :
      (r : PendingModelRequest T) (q d : List (PendingModelRequest T))
      → Offered r q d
      → All Plain q
      → Plain r
      → All Plain d
  Offered-Plain r q d (inl e) a p = rw e a
  Offered-Plain r q d (inr (e, k)) a p = rw e (Plain-append q r a p)

  Offered-weight :
      (w : T.Preset → ℕ) (r : PendingModelRequest T) (q d : List (PendingModelRequest T))
      → Offered r q d
      → r.origin ≡ gui
      → of_requests w d ≡ of_requests w q
  Offered-weight w r q d (inl e) g = rw e refl
  Offered-weight w r q d (inr (e, k)) g =
      rw e (omega (arith, of_requests-append w q (r ∷ []), ap (of_origin w) g))

  offered :
      (r : PendingModelRequest T) (q : List (PendingModelRequest T))
      → length q ≤ max_pending_model_requests
      → Offered r q (push_request r q).0
  offered r q h = elim (push_request-kept r q h) [ inl (a, b) ↦ inl b | inr (a, b, c) ↦ inr (b, c) ]

  queue_selection-Keeps :
      (l : Option T.PathBuf) (s : Pipeline T)
      → Inv s
      → All Plain s.pending_model_requests
      → Keeps s (queue_selection l s)
        × All Plain (queue_selection l s).pending_model_requests
        × ((queue_selection l s).model_generation ≡ s.model_generation)
  unfolding queue_selection
  queue_selection-Keeps none s v p = ((v, λ w. refl), p, refl)
  queue_selection-Keeps (some path) s v p =
      let o =
        offered (record { path = path; origin = gui }) s.pending_model_requests
          v.requests_bounded in
      (
        (
          record {
            flight = v.flight;
            numbered = v.numbered;
            loads_bounded = v.loads_bounded;
            requests_bounded = Offered-bounded _ _ _ o v.requests_bounded;
          },
          λ w. omega (arith, Offered-weight w _ _ _ o refl),
        ),
        Offered-Plain _ _ _ o p (inl refl),
        refl,
      )

  -- From a state with at most 16 entries in each queue and at most one job under way, a housekeeping
  -- tick leads to such a state, and the presets that wait, are being loaded or were reported to the
  -- host are the same as before, each as often: for every weight of presets the sums agree. So the tick
  -- drops no preset load without telling the host and reports none twice. The file of a preset that
  -- waits must not be one of the two paths that stand for the end of a dialog, every job under way or
  -- waiting must have its generation, and the generation counter must not be about to wrap.
  pub handle_pending_model_load-Keeps :
      (a : Attempt T) (s : Pipeline T)
      → Inv s
      → All Plain s.pending_model_requests
      → s.model_generation + 1 < 2 ^ 64
      → Keeps s (handle_pending_model_load a s)
  unfolding handle_pending_model_load propagate_dialog accept_queued_model_request
      poll_model_loader_result dispatch_pending_model_load
  handle_pending_model_load-Keeps a s v p h =
      let ((v1, w1), p1, g1) = queue_selection-Keeps s.dialog_state s v p in
      let s1 = propagate_dialog s in
      let (v2, w2) =
        accept_front-Keeps s1.pending_model_requests s1 v1 refl p1 (omega (arith, h, g1)) in
      let s2 = accept_queued_model_request s1 in
      let (v3, w3) = settle_slot-Keeps s2.model_result_slot s2 v2 refl in
      let s3 = poll_model_loader_result s2 in
      let (v4, w4) =
        dispatch_front-Keeps a s3.model_worker_busy s3.pending_async_loads s3 v3 refl refl in
      (v4, λ w. w4 w ∙ w3 w ∙ w2 w ∙ w1 w)

  under_way :
      {busy : Bool} {n : ℕ} {g : Bool} {k : Option (ModelLoaderJob T)}
      {l : Option (PreparedModelResult T)}
      → (j : ModelLoaderJob T) → Flight busy n g k l
      → k ≡ some j
      → (busy ≡ true) × (l ≡ none) × Marked j.origin j.generation n g
  under_way j (idle a b c) h = cc (b, h)
  under_way j (working a i b c d) h = let e : i ≡ j = cc (b, h) in (a, c, rw (← e) d)
  under_way j (published a q b c d) h = cc (b, h)

  publish_job-Keeps :
      (o : Outcome T) (k : Option (ModelLoaderJob T)) (s : Pipeline T)
      → Inv s
      → s.in_worker ≡ k
      → Keeps s (publish_job o k s)
  unfolding publish_job
  publish_job-Keeps o none s v h = (v, λ w. refl)
  publish_job-Keeps o (some j) s v h =
      let (b, l, m) = under_way j v.flight h in
      (
        record {
          flight = published b _ refl refl m;
          numbered = v.numbered;
          loads_bounded = v.loads_bounded;
          requests_bounded = v.requests_bounded;
        },
        λ w. omega (arith, ap (of_job w) h, ap (of_result w) l),
      )

  -- When the worker publishes the outcome of its job, such a state stays one, and the presets that wait,
  -- are being loaded or were reported are the same as before.
  pub publish-Keeps : (o : Outcome T) (s : Pipeline T) → Inv s → Keeps s (publish o s)
  unfolding publish
  publish-Keeps o s v = publish_job-Keeps o s.in_worker s v refl

  -- In such a state a preset load is taken, and is then accounted for once more, or it is refused because 16 requests
  -- wait: the caller gets an error and nothing changes.
  pub load_preset-Taken :
      (path : T.PathBuf) (p : T.Preset) (s : Pipeline T)
      → Inv s
      → ((load_preset path p s).1 ≡ true)
          × Inv (load_preset path p s).0
          × ((w : T.Preset → ℕ) → weigh w (load_preset path p s).0 ≡ weigh w s + w p)
        ⊎ (load_preset path p s ≡ (s, false))
          × (length s.pending_model_requests ≡ max_pending_model_requests)
  unfolding load_preset push_request
  load_preset-Taken path p s v =
      elim (Bool-cases (ltb (length s.pending_model_requests) max_pending_model_requests)) [
        | inl t ↦
            rw (load_preset, push_request, t)
              (inl (
                refl,
                record {
                  flight = v.flight;
                  numbered = v.numbered;
                  loads_bounded = v.loads_bounded;
                  requests_bounded =
                      let n =
                        length-append s.pending_model_requests
                          (record { path = path; origin = preset p } ∷ []) in
                      ground (arith, n, t);
                },
                λ w. omega (
                  arith,
                  ap (of_requests w) (pushed t),
                  of_requests-append w s.pending_model_requests
                      (record { path = path; origin = preset p } ∷ []),
                ),
              ))
        | inr f ↦
            let b = v.requests_bounded in
            rw (load_preset, push_request, f) (inr (refl, ground (arith, b, f)))
      ]
    where
      pushed :
          ltb (length s.pending_model_requests) max_pending_model_requests ≡ true
          → (push_request (record { path = path; origin = preset p }) s.pending_model_requests).0
            ≡ s.pending_model_requests ++ (record { path = path; origin = preset p } ∷ [])
      pushed t = rw (push_request, t) refl
