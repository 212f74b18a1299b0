-- ===== src/Swap/Restore.antt =====
-- `cold_apply_restore_txn` of src/clap/processor/events.rs: what one restore leaves behind.
use nam_plug.Prelude.{
  ℕ, ◌≡◌, refl, ap, ◌∙◌, true, false, Bool-cases, Option, none, some, inl, inr, if_keeps,
}
use nam_plug.Engine.{Engine}
use nam_plug.Dsp.{Dsp}
use nam_plug.Payload.{LoadModelPayload, RestoreTxn}
use nam_plug.Swap.{Processor}
use nam_plug.Swap.Apply.{sanitized}
use nam_plug.Swap.Frame.{apply_params_from_spsc-untouched, apply_params_from_spsc-params}
use nam_plug.Swap.Handler.{
  is_stale, recompute_effective_latency, report_tail, check_tail_changed, cold_load_model,
  reject_cabsim, swap_cabsim, accept_cabsim, cold_load_cabsim, load_model_some, load_cabsim_some,
  cold_apply_restore_txn,
}

module _ {E : Engine} (D : Dsp E) where
  abbrev pub model_part : Processor D → Option E.StaticModel × Option E.StaticModel × E.Stream × ℕ
  model_part s = (s.model_l, s.model_r, s.stream, s.model_generation)

  -- The model part of a restore, if there is one, is what the processor runs.
  abbrev pub ModelRestored : Option (LoadModelPayload E) → Processor D → Processor D → Type 0
  ModelRestored none s t = model_part t ≡ model_part s
  ModelRestored (some p) s t = model_part t ≡ (p.model_l, p.model_r, p.new_stream, p.generation)

  -- The cab-sim part is what the processor runs, or it was stale and the old pair stays, with the
  -- violation flag raised.
  abbrev pub IrRestored : Option (Option E.CabSimPair) → Processor D → Processor D → Type 0
  IrRestored none s t = t.cabsim_pair ≡ s.cabsim_pair
  IrRestored (some ir) s t =
      (is_stale D s.shared.sample_rate ir ≡ false → t.cabsim_pair ≡ ir)
      × (is_stale D s.shared.sample_rate ir ≡ true
          → (t.cabsim_pair ≡ s.cabsim_pair) × (t.shared.host_contract_violation ≡ true))

  check_tail_changed-parts :
      (s : Processor D)
      → (model_part (check_tail_changed D s) ≡ model_part s)
        × ((check_tail_changed D s).cabsim_pair ≡ s.cabsim_pair)
  unfolding check_tail_changed report_tail
  check_tail_changed-parts s = (
    if_keeps model_part _ (model_part s) s (report_tail D s) refl refl,
    if_keeps (λ t. t.cabsim_pair) _ s.cabsim_pair s (report_tail D s) refl refl,
  )

  load_cabsim_some-parts :
      (o : Option (Option E.CabSimPair)) (s : Processor D)
      → (model_part (load_cabsim_some D o s) ≡ model_part s)
        × IrRestored o s (load_cabsim_some D o s)
  unfolding cold_load_cabsim reject_cabsim accept_cabsim swap_cabsim recompute_effective_latency
  load_cabsim_some-parts none s = (refl, refl)
  load_cabsim_some-parts (some ir) s = elim (Bool-cases (is_stale D s.shared.sample_rate ir)) [
    | inl t ↦ rw (cold_load_cabsim, t) (refl, (λ f. cc f, λ _. (refl, refl)))
    | inr f ↦
        rw (cold_load_cabsim, f)
          (
            (check_tail_changed-parts (swap_cabsim D ir s)).0,
            (λ _. (check_tail_changed-parts (swap_cabsim D ir s)).1, λ t. cc t),
          )
  ]

  load_model_some-parts :
      (o : Option (LoadModelPayload E)) (s : Processor D)
      → ModelRestored o s (load_model_some D o s)
        × ((load_model_some D o s).cabsim_pair ≡ s.cabsim_pair)
        × ((load_model_some D o s).shared.sample_rate ≡ s.shared.sample_rate)
  unfolding cold_load_model recompute_effective_latency
  load_model_some-parts none s = (refl, refl, refl)
  load_model_some-parts (some p) s = (refl, refl, refl)

  model_chain :
      (o : Option (LoadModelPayload E)) (s m t : Processor D)
      → ModelRestored o s m
      → model_part t ≡ model_part m
      → ModelRestored o s t
  model_chain none s m t h k = k ∙ h
  model_chain (some p) s m t h k = k ∙ h

  ir_chain :
      (o : Option (Option E.CabSimPair)) (s m i t : Processor D)
      → IrRestored o m i
      → m.cabsim_pair ≡ s.cabsim_pair
      → m.shared.sample_rate ≡ s.shared.sample_rate
      → t.cabsim_pair ≡ i.cabsim_pair
      → t.shared.host_contract_violation ≡ i.shared.host_contract_violation
      → IrRestored o s t
  ir_chain none s m i t h a b c d = c ∙ (h ∙ a)
  ir_chain (some ir) s m i t (h, k) a b c d = (
    λ f. c ∙ h (ap (λ r. is_stale D r ir) b ∙ f),
    λ e. (
      c ∙ ((k (ap (λ r. is_stale D r ir) b ∙ e)).0 ∙ a),
      d ∙ (k (ap (λ r. is_stale D r ir) b ∙ e)).1,
    ),
  )

  -- After a restore the processor has the transaction's parameters, sanitized, and publishes its
  -- generation; the model part is installed or, if absent, untouched; so is the cab-sim part, unless
  -- it is stale: then the old pair stays, the violation flag is raised, and the generation is
  -- published all the same.
  pub cold_apply_restore_txn_lem :
      (txn : RestoreTxn E) (s : Processor D)
      → let t = cold_apply_restore_txn D txn s in
        (t.params ≡ sanitized D txn.params)
        × (t.shared.last_applied_generation ≡ txn.generation)
        × ModelRestored txn.model s t
        × IrRestored txn.ir s t
  unfolding cold_apply_restore_txn
  cold_apply_restore_txn_lem txn s =
      let m = load_model_some D txn.model s in
      let i = load_cabsim_some D txn.ir m in
      let u = apply_params_from_spsc-untouched D txn.params i in
      let (a, b, c) = load_model_some-parts txn.model s in
      let (e, f) = load_cabsim_some-parts txn.ir m in
      let t = cold_apply_restore_txn D txn s in
      (
        apply_params_from_spsc-params D txn.params i,
        refl,
        model_chain txn.model s m t a
            (ap (λ v. (v.model_l, v.model_r, v.stream, v.model_generation)) u ∙ e),
        ir_chain txn.ir s m i t f b c (ap (λ v. v.cabsim_pair) u) (ap (λ v. v.violation) u),
      )
