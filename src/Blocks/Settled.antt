-- ===== src/Blocks/Settled.antt =====
-- src/clap/processor/dsp/orchestrator.rs: no event is lost, whichever way a block is cut.
use nam_plug.Prelude.{
  ℕ, zero, suc, ◌+◌, ◌-◌, ◌≡◌, refl, sym, ap, ◌∙◌, Bool, true, false, Bool-cases, ◌&&◌, ◌||◌, inl,
  inr, List, [], ◌∷◌, length, ltb, leb, ◌==◌,
}
use nam_plug.Engine.{Engine}
use nam_plug.Dsp.{Dsp}
use nam_plug.Blocks.{ScheduledEvent, GainStep, Control, SubBlock, Render, Slice}
use nam_plug.Blocks.Event.{
  event_requires_boundary, apply_control, target_of, apply_motion, apply_all,
}
use nam_plug.Blocks.Cut.{
  refresh_if, applied, apply_late, apply_at, apply_remaining, staged_step, stage, stage_if, render,
  apply_at_if, fuses, at_boundary, caught_up, sub_end_of, sub_blocks, close_if,
  process_wet_sub_blocks,
}

module _ {E : Engine} (D : Dsp E) (R : Render D) where
  -- The control once every event that is left is applied.
  abbrev pub settled : Slice D → Control D
  settled s = apply_all D s.events s.control

  refresh_if-settled : (b : Bool) (s : Slice D) → settled (refresh_if D R b s) ≡ settled s
  refresh_if-settled true s = refl
  refresh_if-settled false s = refl

  apply_late-settled :
      (from : ℕ) (es : List ScheduledEvent) (s : Slice D)
      → s.events ≡ es
      → settled (apply_late D R from es s).0 ≡ apply_all D es s.control
  unfolding apply_late apply_all
  apply_late-settled from [] s h = ap (λ es. apply_all D es s.control) h
  apply_late-settled from (e ∷ es) s h = elim (Bool-cases (ltb e.time from)) [
    | inl t ↦ rw t (apply_late-settled from es (applied D R e es true s) refl)
    | inr f ↦ rw f (ap (λ xs. apply_all D xs s.control) h)
  ]

  apply_at-settled :
      (boundary : ℕ) (es : List ScheduledEvent) (s : Slice D)
      → s.events ≡ es
      → settled (apply_at D R boundary es s) ≡ apply_all D es s.control
  unfolding apply_at apply_all
  apply_at-settled boundary [] s h = ap (λ es. apply_all D es s.control) h
  apply_at-settled boundary (e ∷ es) s h = elim (Bool-cases (e.time == boundary)) [
    | inl t ↦ rw t (apply_at-settled boundary es (applied D R e es false s) refl)
    | inr f ↦ rw f (ap (λ xs. apply_all D xs s.control) h)
  ]

  apply_remaining-settled :
      (es : List ScheduledEvent) (s : Slice D)
      → s.events ≡ es
      → ((apply_remaining D R es s).control ≡ apply_all D es s.control)
        × ((apply_remaining D R es s).events ≡ [])
  unfolding apply_remaining apply_all
  apply_remaining-settled [] s h = (refl, h)
  apply_remaining-settled (e ∷ es) s h = apply_remaining-settled es (applied D R e es true s) refl

  stage-settled :
      (until from : ℕ) (es : List ScheduledEvent) (steps : List GainStep) (s : Slice D)
      → s.events ≡ es
      → settled (stage D R until from es steps s).0 ≡ apply_all D es s.control
  unfolding stage apply_all
  stage-settled until from [] steps s h = ap (λ es. apply_all D es s.control) h
  stage-settled until from (e ∷ es) steps s h =
      elim (Bool-cases (leb until e.time || event_requires_boundary e.param_id)) [
        | inl t ↦ rw t (ap (λ xs. apply_all D xs s.control) h)
        | inr f ↦ rw f (
            stage-settled until from es
              (staged_step D R (e.time - from) (target_of D e s.control) steps)
              (record s {
                control = apply_control D e s.control;
                motion = apply_motion D false e s.control s.motion;
                events = es;
              })
              refl)
      ]

  stage_if-settled :
      (b : Bool) (until from : ℕ) (s : Slice D)
      → settled (stage_if D R b until from s).0 ≡ settled s
  stage_if-settled false until from s = refl
  stage_if-settled true until from s = stage-settled until from s.events [] s refl

  render-settled : (b : SubBlock D) (s : Slice D) → settled (render D R b s).0 ≡ settled s
  unfolding render
  render-settled b s = elim (Bool-cases (ltb 0 b.sub_n)) [ inl t ↦ rw t refl | inr f ↦ rw f refl ]

  apply_at_if-settled :
      (b : Bool) (boundary : ℕ) (s : Slice D) → settled (apply_at_if D R b boundary s) ≡ settled s
  apply_at_if-settled false boundary s = refl
  apply_at_if-settled true boundary s = apply_at-settled boundary s.events s refl

  module _ (max_resamp_buf : ℕ) (sorted : Bool) where
    at_boundary-settled :
        (base n block_offset output_offset : ℕ) (fuse : Bool) (sub_end : ℕ) (s : Slice D)
        → settled
            (at_boundary D R max_resamp_buf sorted base n block_offset output_offset fuse sub_end
              s).0
          ≡ settled s
    unfolding at_boundary
    at_boundary-settled base n block_offset output_offset fuse sub_end s =
        let (t, steps) =
          stage_if D R (fuse && ltb 0 (sub_end - block_offset)) (base + sub_end)
            (base + block_offset) s in
        let b : SubBlock D = record {
          block_offset = block_offset;
          sub_n = sub_end - block_offset;
          output_offset = output_offset;
          gain_steps = steps;
          control = t.control;
        } in
        apply_at_if-settled (ltb sub_end n) (base + sub_end) (render D R b t).0
        ∙ render-settled b t
        ∙ stage_if-settled (fuse && ltb 0 (sub_end - block_offset)) (base + sub_end)
            (base + block_offset) s

    caught_up-settled :
        (from : ℕ) (s : Slice D) → settled (caught_up D R max_resamp_buf sorted from s) ≡ settled s
    unfolding caught_up
    caught_up-settled from s =
        let (t, late) = apply_late D R from s.events s in
        refresh_if-settled late t ∙ apply_late-settled from s.events s refl

    sub_blocks-settled :
        (fuel base n block_offset output_offset : ℕ) (s : Slice D)
        → settled (sub_blocks D R max_resamp_buf sorted fuel base n block_offset output_offset s).0
          ≡ settled s
    unfolding sub_blocks
    sub_blocks-settled zero base n block_offset output_offset s = refl
    sub_blocks-settled (suc fuel) base n block_offset output_offset s =
        let t = caught_up D R max_resamp_buf sorted (base + block_offset) s in
        let sub_end = sub_end_of D R max_resamp_buf sorted base n block_offset t in
        let fuse = fuses D R max_resamp_buf sorted n t in
        let (u, out) =
          at_boundary D R max_resamp_buf sorted base n block_offset output_offset fuse sub_end t in
        let ih = sub_blocks-settled fuel base n sub_end out u in
        elim (Bool-cases (ltb block_offset n)) [
          | inl y ↦ rw y (
              ih
              ∙ at_boundary-settled base n block_offset output_offset fuse sub_end t
              ∙ caught_up-settled (base + block_offset) s)
          | inr y ↦ rw y refl
        ]

    close_if-settled :
        (b : Bool) (s : Slice D) → settled (close_if D R max_resamp_buf sorted b s) ≡ settled s
    unfolding apply_all
    close_if-settled false s = refl
    close_if-settled true s =
        let t = apply_remaining D R s.events s in
        let (x, y) = apply_remaining-settled s.events s refl in
        refresh_if-settled (ltb 0 (length s.events)) t ∙ ap (λ es. apply_all D es t.control) y ∙ x

    close_if-empty : (s : Slice D) → (close_if D R max_resamp_buf sorted true s).events ≡ []
    close_if-empty s =
        let (x, y) = apply_remaining-settled s.events s refl in
        keeps (ltb 0 (length s.events)) (apply_remaining D R s.events s) ∙ y
      where
        keeps : (b : Bool) (t : Slice D) → (refresh_if D R b t).events ≡ t.events
        keeps true t = refl
        keeps false t = refl

    -- However a slice is cut into sub-blocks, what the events write is settled alike: the control after
    -- the slice, with the events that it leaves applied in order, is the control before with all events
    -- applied in order. The last slice leaves no event, so its control is that of a block that is held
    -- out of the pipeline, which only applies them.
    pub process_wet_sub_blocks-settled :
        (base n : ℕ) (s : Slice D)
        → let t = process_wet_sub_blocks D R max_resamp_buf sorted true base n s in
          let u = process_wet_sub_blocks D R max_resamp_buf sorted false base n s in
          (t.events ≡ [])
          × (t.control ≡ apply_all D s.events s.control)
          × (apply_all D u.events u.control ≡ apply_all D s.events s.control)
    unfolding process_wet_sub_blocks apply_all
    process_wet_sub_blocks-settled base n s =
        let r = (sub_blocks D R max_resamp_buf sorted (n + length s.events) base n 0 0 s).0 in
        let q = sub_blocks-settled (n + length s.events) base n 0 0 s in
        let e = close_if-empty r in
        let k = close_if-settled true r ∙ q in
        (
          e,
          ap (λ es. apply_all D es (close_if D R max_resamp_buf sorted true r).control) (sym e) ∙ k,
          q,
        )
