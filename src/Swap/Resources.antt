-- ===== src/Swap/Resources.antt =====
-- Heap resources in src/clap/processor/events.rs: none is lost or freed on the audio thread, none is
-- kept twice. Every weighing of resources is kept, which says it of each with its multiplicity.
use nam_plug.Prelude.{
  ℕ, ◌+◌, ◌≡◌, refl, ◌∙◌, Option, none, some, List, [], ◌∷◌, ◌++◌, arith, if_keeps,
}
use nam_plug.Engine.{Engine, Params}
use nam_plug.Dsp.{Dsp}
use nam_plug.Payload.{
  LoadModelPayload, RestoreTxn, ClapParamPayload, params, load_model, load_cab_ir, set_oversample,
  restore_txn, StructuralKind,
}
use nam_plug.Scheduler.{wrap64}
use nam_plug.Swap.{GcItem, model, resampler, streaming, oversample, cab_sim_pair, Processor}
use nam_plug.Swap.Apply.{
  sanitized, take_over, follow_adaptive, follow_slim, follow_oversample, follow_activation,
  follow_gate, apply_oversample, apply_params_from_spsc,
}
use nam_plug.Swap.Handler.{
  retire, retire_some, is_stale, cold_load_model, reject_cabsim, swap_cabsim, accept_cabsim,
  cold_load_cabsim, cold_load_os, cold_apply_restore_txn, recompute_effective_latency, report_tail,
  check_tail_changed, load_model_some, load_cabsim_some, apply_structural,
  discard_structural_payload, install, discard, coalesce_key,
}

module _ {E : Engine} (D : Dsp E) (w : GcItem E → ℕ) where
  abbrev pub weigh_some : {A : Type 0} → (A → GcItem E) → Option A → ℕ
  weigh_some f none = 0
  weigh_some f (some a) = w (f a)

  abbrev pub weigh_all : List (GcItem E) → ℕ
  weigh_all [] = 0
  weigh_all (x ∷ xs) = w x + weigh_all xs

  -- What the processor holds, and what waits in the garbage queue.
  abbrev pub held : Processor D → ℕ
  held s =
      weigh_some model s.model_l
      + weigh_some model s.model_r
      + w (resampler s.resampler)
      + w (streaming s.stream)
      + w (oversample s.os_l)
      + w (oversample s.os_r)
      + weigh_some cab_sim_pair s.cabsim_pair

  abbrev pub owned : Processor D → ℕ
  owned s = held s + weigh_all s.gc

  abbrev pub carried_model : LoadModelPayload E → ℕ
  carried_model p =
      weigh_some model p.model_l
      + weigh_some model p.model_r
      + w (resampler p.new_resampler)
      + w (streaming p.new_stream)

  abbrev pub carried_some : {A : Type 0} → (A → ℕ) → Option A → ℕ
  carried_some f none = 0
  carried_some f (some a) = f a

  abbrev pub carried : ClapParamPayload E → ℕ
  carried (params p) = 0
  carried (load_model p) = carried_model p
  carried (load_cab_ir pair) = weigh_some cab_sim_pair pair
  carried (set_oversample l r) = w (oversample l) + w (oversample r)
  carried (restore_txn t) =
      carried_some carried_model t.model + carried_some (weigh_some cab_sim_pair) t.ir

  weigh_all-snoc :
      (xs : List (GcItem E)) (x : GcItem E) → weigh_all (xs ++ (x ∷ [])) ≡ weigh_all xs + w x
  weigh_all-snoc [] x = omega arith
  weigh_all-snoc (y ∷ ys) x = omega (arith, weigh_all-snoc ys x)

  weigh_all-retire_some :
      {A : Type 0} (f : A → GcItem E) (o : Option A) (gc : List (GcItem E))
      → weigh_all (retire_some D f o gc) ≡ weigh_all gc + weigh_some f o
  weigh_all-retire_some f none gc = omega arith
  weigh_all-retire_some f (some a) gc = weigh_all-snoc gc (f a)

  -- The queue after a model's four resources were retired.
  retire_model-weigh :
      (l r : Option E.StaticModel) (rs : E.Resampler) (st : E.Stream) (gc : List (GcItem E))
      → weigh_all (
          retire D
            (streaming st)
            (retire D (resampler rs) (retire_some D model r (retire_some D model l gc))))
        ≡ weigh_all gc
          + (weigh_some model l + weigh_some model r + w (resampler rs) + w (streaming st))
  retire_model-weigh l r rs st gc =
      let a = weigh_all-retire_some model l gc in
      let b = weigh_all-retire_some model r (retire_some D model l gc) in
      let c = weigh_all-snoc (retire_some D model r (retire_some D model l gc)) (resampler rs) in
      let d =
        weigh_all-snoc (retire_some D model r (retire_some D model l gc) ++ (resampler rs ∷ []))
          (streaming st) in
      omega (arith, a, b, c, d)

  retire_pair-weigh :
      (l r : E.OversampleEngine) (gc : List (GcItem E))
      → weigh_all (retire D (oversample r) (retire D (oversample l) gc))
        ≡ weigh_all gc + (w (oversample l) + w (oversample r))
  retire_pair-weigh l r gc =
      let a = weigh_all-snoc gc (oversample l) in
      let b = weigh_all-snoc (gc ++ (oversample l ∷ [])) (oversample r) in omega (arith, a, b)

  cold_load_model-owned :
      (p : LoadModelPayload E) (s : Processor D)
      → owned (cold_load_model D p s) ≡ owned s + carried_model p
  unfolding cold_load_model recompute_effective_latency
  cold_load_model-owned p s =
      let a = retire_model-weigh s.model_l s.model_r s.resampler s.stream s.gc in omega (arith, a)

  cold_load_os-owned :
      (l r : E.OversampleEngine) (s : Processor D)
      → owned (cold_load_os D l r s) ≡ owned s + (w (oversample l) + w (oversample r))
  unfolding cold_load_os recompute_effective_latency
  cold_load_os-owned l r s = let a = retire_pair-weigh s.os_l s.os_r s.gc in omega (arith, a)

  check_tail_changed-owned : (s : Processor D) → owned (check_tail_changed D s) ≡ owned s
  unfolding check_tail_changed report_tail
  check_tail_changed-owned s = if_keeps owned _ (owned s) s (report_tail D s) refl refl

  swap_cabsim-owned :
      (ir : Option E.CabSimPair) (s : Processor D)
      → owned (swap_cabsim D ir s) ≡ owned s + weigh_some cab_sim_pair ir
  unfolding swap_cabsim recompute_effective_latency
  swap_cabsim-owned ir s =
      let a = weigh_all-retire_some cab_sim_pair s.cabsim_pair s.gc in omega (arith, a)

  reject_cabsim-owned :
      (ir : Option E.CabSimPair) (s : Processor D)
      → owned (reject_cabsim D ir s) ≡ owned s + weigh_some cab_sim_pair ir
  unfolding reject_cabsim
  reject_cabsim-owned ir s = let a = weigh_all-retire_some cab_sim_pair ir s.gc in omega (arith, a)

  accept_cabsim-owned :
      (ir : Option E.CabSimPair) (s : Processor D)
      → owned (accept_cabsim D ir s) ≡ owned s + weigh_some cab_sim_pair ir
  unfolding accept_cabsim
  accept_cabsim-owned ir s = check_tail_changed-owned (swap_cabsim D ir s) ∙ swap_cabsim-owned ir s

  cold_load_cabsim-owned :
      (ir : Option E.CabSimPair) (s : Processor D)
      → owned (cold_load_cabsim D ir s) ≡ owned s + weigh_some cab_sim_pair ir
  unfolding cold_load_cabsim
  cold_load_cabsim-owned ir s =
      if_keeps owned (is_stale D s.shared.sample_rate ir) (owned s + weigh_some cab_sim_pair ir)
        (reject_cabsim D ir s) (accept_cabsim D ir s) (reject_cabsim-owned ir s)
        (accept_cabsim-owned ir s)

  apply_oversample-owned :
      (f : E.Factor) (s : Processor D) → owned (apply_oversample D f s) ≡ owned s
  unfolding apply_oversample
  apply_oversample-owned f s = refl

  follow_adaptive-owned :
      (old p : Params E) (s : Processor D) → owned (follow_adaptive D old p s) ≡ owned s
  unfolding follow_adaptive
  follow_adaptive-owned old p s = if_keeps owned _ (owned s) s _ refl refl

  follow_slim-owned : (old p : Params E) (s : Processor D) → owned (follow_slim D old p s) ≡ owned s
  unfolding follow_slim
  follow_slim-owned old p s = if_keeps owned _ (owned s) s _ refl refl

  follow_oversample-owned :
      (old p : Params E) (s : Processor D) → owned (follow_oversample D old p s) ≡ owned s
  unfolding follow_oversample
  follow_oversample-owned old p s =
      if_keeps owned _ (owned s) s _ refl (apply_oversample-owned p.oversample s)

  follow_activation-owned :
      (old p : Params E) (s : Processor D) → owned (follow_activation D old p s) ≡ owned s
  unfolding follow_activation
  follow_activation-owned old p s = if_keeps owned _ (owned s) s _ refl refl

  follow_gate-owned : (old p : Params E) (s : Processor D) → owned (follow_gate D old p s) ≡ owned s
  unfolding follow_gate
  follow_gate-owned old p s = if_keeps owned _ (owned s) s _ refl refl

  take_over-owned : (p : Params E) (s : Processor D) → owned (take_over D p s) ≡ owned s
  unfolding take_over
  take_over-owned p s = refl

  apply_params_from_spsc-owned :
      (p : Params E) (s : Processor D) → owned (apply_params_from_spsc D p s) ≡ owned s
  unfolding apply_params_from_spsc
  apply_params_from_spsc-owned p s =
      let q = sanitized D p in
      let a = take_over D q s in
      let b = follow_adaptive D s.params q a in
      let c = follow_slim D s.params q b in
      let d = follow_oversample D s.params q c in
      let e = follow_activation D s.params q d in
      follow_gate-owned s.params q e
      ∙ (follow_activation-owned s.params q d
          ∙ (follow_oversample-owned s.params q c
              ∙ (follow_slim-owned s.params q b
                  ∙ (follow_adaptive-owned s.params q a ∙ take_over-owned q s))))

  load_model_some-owned :
      (o : Option (LoadModelPayload E)) (s : Processor D)
      → owned (load_model_some D o s) ≡ owned s + carried_some carried_model o
  load_model_some-owned none s = omega arith
  load_model_some-owned (some p) s = cold_load_model-owned p s

  load_cabsim_some-owned :
      (o : Option (Option E.CabSimPair)) (s : Processor D)
      → owned (load_cabsim_some D o s) ≡ owned s + carried_some (weigh_some cab_sim_pair) o
  load_cabsim_some-owned none s = omega arith
  load_cabsim_some-owned (some ir) s = cold_load_cabsim-owned ir s

  cold_apply_restore_txn-owned :
      (t : RestoreTxn E) (s : Processor D)
      → owned (cold_apply_restore_txn D t s) ≡ owned s + carried (restore_txn t)
  unfolding cold_apply_restore_txn
  cold_apply_restore_txn-owned t s =
      let a = load_model_some-owned t.model s in
      let b = load_cabsim_some-owned t.ir (load_model_some D t.model s) in
      let c =
        apply_params_from_spsc-owned t.params
          (load_cabsim_some D t.ir (load_model_some D t.model s)) in
      omega (arith, a, b, c)

  apply_structural-owned :
      (a : ClapParamPayload E) (s : Processor D)
      → owned (apply_structural D a s) ≡ owned s + carried a
  unfolding apply_structural
  apply_structural-owned (params p) s = omega (arith, apply_params_from_spsc-owned p s)
  apply_structural-owned (load_model p) s = cold_load_model-owned p s
  apply_structural-owned (load_cab_ir pair) s = cold_load_cabsim-owned pair s
  apply_structural-owned (set_oversample l r) s = cold_load_os-owned l r s
  apply_structural-owned (restore_txn t) s = cold_apply_restore_txn-owned t s

  -- Whatever the weighing of resources `w`: after an install the processor and the garbage queue
  -- together own what they owned before, and what the payload carried. So no command frees, loses or
  -- copies a resource.
  pub install-conserves :
      (a : ClapParamPayload E) (s : Processor D) → owned (install D a s) ≡ owned s + carried a
  unfolding install
  install-conserves a s = apply_structural-owned a (record s { resolved = wrap64 (s.resolved + 1) })

  -- A payload that the scheduler may discard, one with a coalescing key, is retired whole, and what
  -- the processor holds stays.
  pub discard-conserves :
      (a : ClapParamPayload E) (k : StructuralKind) (s : Processor D)
      → coalesce_key D a ≡ some k
      → (weigh_all (discard D a s).gc ≡ weigh_all s.gc + carried a)
        × (held (discard D a s) ≡ held s)
  unfolding discard coalesce_key discard_structural_payload
  discard-conserves (params p) k s h = ground (arith, h)
  discard-conserves (load_model p) k s h =
      (retire_model-weigh p.model_l p.model_r p.new_resampler p.new_stream s.gc, refl)
  discard-conserves (load_cab_ir pair) k s h = (weigh_all-retire_some cab_sim_pair pair s.gc, refl)
  discard-conserves (set_oversample l r) k s h = (retire_pair-weigh l r s.gc, refl)
  discard-conserves (restore_txn t) k s h = ground (arith, h)
