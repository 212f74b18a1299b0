-- ===== src/Blocks/Tiling.antt =====
-- src/clap/processor/dsp/orchestrator.rs: the sub-blocks of a slice.
use mathlib.Core.Path.{subst}
use nam_plug.Prelude.{
  ℕ, zero, suc, ◌+◌, ◌-◌, ◌≤◌, ◌<◌, ◌≡◌, refl, sym, ap, ◌∙◌, Bool, true, false, Bool-cases, ◌&&◌,
  ◌||◌, inl, inr, Option, none, some, List, [], ◌∷◌, ◌++◌, append-nil, append_assoc, length, ltb,
  leb, ◌==◌, All, arith,
}
use nam_plug.Engine.{Engine}
use nam_plug.Dsp.{Dsp}
use nam_plug.Blocks.{ScheduledEvent, GainStep, GainTarget, SubBlock, Render, Slice}
use nam_plug.Blocks.Event.{event_requires_boundary, apply_control, target_of, apply_motion}
use nam_plug.Blocks.Cut.{
  max_gain_steps, refresh_if, applied, apply_late, apply_at, staged_step, stage, stage_if, render,
  apply_at_if, fuses, at_boundary, caught_up, sub_end_of, sub_blocks,
}
use nam_plug.Blocks.Progress.{Sorted, find_boundary-range, turn, sub_blocks-ends}

Staged-snoc :
    (n : ℕ) (xs : List GainStep) (x : GainStep)
    → All (λ (g : GainStep). g.offset < n) xs
    → x.offset < n
    → All (λ (g : GainStep). g.offset < n) (xs ++ (x ∷ []))
      × (length (xs ++ (x ∷ [])) ≡ length xs + 1)
Staged-snoc n [] x h p = ((p, tt), omega arith)
Staged-snoc n (y ∷ xs) x (h, k) p =
    let (a, b) = Staged-snoc n xs x k p in ((h, a), omega (arith, b))

module _ {E : Engine} (D : Dsp E) (R : Render D) where
  -- One after the other, none of them empty, every gain step inside its sub-block.
  abbrev pub Tiles : ℕ → ℕ → List (SubBlock D) → Type 0
  Tiles from to [] = from ≡ to
  Tiles from to (b ∷ bs) =
      (b.block_offset ≡ from)
      × (0 < b.sub_n)
      × All (λ (g : GainStep). g.offset < b.sub_n) b.gain_steps
      × (length b.gain_steps ≤ max_gain_steps)
      × Tiles (from + b.sub_n) to bs

  apply_late-sub_blocks :
      (from : ℕ) (es : List ScheduledEvent) (s : Slice D)
      → (apply_late D R from es s).0.sub_blocks ≡ s.sub_blocks
  unfolding apply_late
  apply_late-sub_blocks from [] s = refl
  apply_late-sub_blocks from (e ∷ es) s = elim (Bool-cases (ltb e.time from)) [
    | inl t ↦ rw t (apply_late-sub_blocks from es (applied D R e es true s))
    | inr f ↦ rw f refl
  ]

  apply_at-sub_blocks :
      (boundary : ℕ) (es : List ScheduledEvent) (s : Slice D)
      → (apply_at D R boundary es s).sub_blocks ≡ s.sub_blocks
  unfolding apply_at
  apply_at-sub_blocks boundary [] s = refl
  apply_at-sub_blocks boundary (e ∷ es) s = elim (Bool-cases (e.time == boundary)) [
    | inl t ↦ rw t (apply_at-sub_blocks boundary es (applied D R e es false s))
    | inr f ↦ rw f refl
  ]

  apply_at_if-sub_blocks :
      (b : Bool) (boundary : ℕ) (s : Slice D)
      → (apply_at_if D R b boundary s).sub_blocks ≡ s.sub_blocks
  apply_at_if-sub_blocks false boundary s = refl
  apply_at_if-sub_blocks true boundary s = apply_at-sub_blocks boundary s.events s

  refresh_if-sub_blocks : (b : Bool) (s : Slice D) → (refresh_if D R b s).sub_blocks ≡ s.sub_blocks
  refresh_if-sub_blocks true s = refl
  refresh_if-sub_blocks false s = refl

  abbrev Staged : ℕ → List GainStep → Type 0
  Staged n steps = All (λ (g : GainStep). g.offset < n) steps × (length steps ≤ max_gain_steps)

  staged_step-Staged :
      (n offset : ℕ) (o : Option GainTarget) (steps : List GainStep)
      → offset < n
      → Staged n steps
      → Staged n (staged_step D R offset o steps)
  staged_step-Staged n offset none steps h s = s
  staged_step-Staged n offset (some t) steps h (a, l) =
      let (x, y) =
        Staged-snoc n steps (record { offset = offset; target = t.target; is_input = t.is_input }) a
          h in
      elim (Bool-cases (ltb (length steps) max_gain_steps)) [
        | inl z ↦ rw z (x, ground (arith, z, y))
        | inr z ↦ rw z (a, l)
      ]

  stage-Staged :
      (until n from : ℕ) (es : List ScheduledEvent) (steps : List GainStep) (s : Slice D)
      → until ≤ from + n
      → 0 < n
      → Staged n steps
      → ((stage D R until from es steps s).0.sub_blocks ≡ s.sub_blocks)
        × Staged n (stage D R until from es steps s).1
  unfolding stage
  stage-Staged until n from [] steps s q p h = (refl, h)
  stage-Staged until n from (e ∷ es) steps s q p h =
      elim (Bool-cases (leb until e.time || event_requires_boundary e.param_id)) [
        | inl t ↦ rw t (refl, h)
        | inr f ↦ rw f (
            stage-Staged until n from es
              (staged_step D R (e.time - from) (target_of D e s.control) steps)
              (record s {
                control = apply_control D e s.control;
                motion = apply_motion D false e s.control s.motion;
                events = es;
              })
              q p
              (staged_step-Staged n (e.time - from) (target_of D e s.control) steps
                (ground (arith, f, p, q)) h))
      ]

  stage_if-Staged :
      (b : Bool) (until n from : ℕ) (s : Slice D)
      → until ≤ from + n
      → 0 < n
      → ((stage_if D R b until from s).0.sub_blocks ≡ s.sub_blocks)
        × Staged n (stage_if D R b until from s).1
  stage_if-Staged false until n from s q h = (refl, (tt, omega arith))
  stage_if-Staged true until n from s q h =
      stage-Staged until n from s.events [] s q h (tt, omega arith)

  module _ (max_resamp_buf : ℕ) (sorted : Bool) where
    caught_up-sub_blocks :
        (from : ℕ) (s : Slice D)
        → (caught_up D R max_resamp_buf sorted from s).sub_blocks ≡ s.sub_blocks
    unfolding caught_up
    caught_up-sub_blocks from s =
        let (t, late) = apply_late D R from s.events s in
        refresh_if-sub_blocks late t ∙ apply_late-sub_blocks from s.events s

    empty_turn :
        (base n offset output : ℕ) (fuse : Bool) (s : Slice D)
        → (at_boundary D R max_resamp_buf sorted base n offset output fuse offset s).0.sub_blocks
          ≡ s.sub_blocks
    unfolding at_boundary render
    empty_turn base n offset output fuse s =
        let none_staged : (fuse && ltb 0 (offset - offset)) ≡ false = ground arith in
        let nothing : ltb 0 (offset - offset) ≡ false = ground arith in
        rw (none_staged, nothing) (apply_at_if-sub_blocks (ltb offset n) (base + offset) s)

    rendered_turn :
        (base n offset output : ℕ) (fuse : Bool) (sub_end : ℕ) (s : Slice D)
        → offset < sub_end
        → (b : SubBlock D) × ((at_boundary D R max_resamp_buf sorted base n offset output fuse
              sub_end s).0.sub_blocks
            ≡ s.sub_blocks ++ (b ∷ []))
          × (b.block_offset ≡ offset)
          × (b.sub_n ≡ sub_end - offset)
          × Staged b.sub_n b.gain_steps
    unfolding at_boundary render
    rendered_turn base n offset output fuse sub_end s h =
        let some_left : ltb 0 (sub_end - offset) ≡ true = ground (arith, h) in
        let staging = fuse && ltb 0 (sub_end - offset) in
        let (t, steps) = stage_if D R staging (base + sub_end) (base + offset) s in
        let (e, st) =
          stage_if-Staged staging (base + sub_end) (sub_end - offset) (base + offset) s
            (omega (arith, h)) (omega (arith, h)) in
        let b : SubBlock D = record {
          block_offset = offset;
          sub_n = sub_end - offset;
          output_offset = output;
          gain_steps = steps;
          control = t.control;
        } in
        let r : Slice D = (render D R b t).0 in
        (
          b,
          apply_at_if-sub_blocks (ltb sub_end n) (base + sub_end) r
              ∙ render-adds b t some_left
              ∙ ap (λ bs. bs ++ (b ∷ [])) e,
          refl,
          refl,
          st,
        )
      where
        render-adds :
            (b : SubBlock D) (t : Slice D)
            → ltb 0 b.sub_n ≡ true
            → (render D R b t).0.sub_blocks ≡ t.sub_blocks ++ (b ∷ [])
        render-adds b t h = rw h refl

    abbrev Tiled : List (SubBlock D) → ℕ → Slice D → Slice D × ℕ → Type 0
    Tiled new offset s r = (r.0.sub_blocks ≡ s.sub_blocks ++ new) × Tiles offset r.1 new

    joined :
        (new : List (SubBlock D)) (base n offset r : ℕ) (s t u : Slice D) (output : ℕ) (fuse : Bool)
        (res : Slice D × ℕ)
        → t.sub_blocks ≡ s.sub_blocks
        → u ≡ (at_boundary D R max_resamp_buf sorted base n offset output fuse r t).0
        → offset ≤ r
        → Tiled new r u res
        → (all : List (SubBlock D)) × Tiled all offset s res
    joined new base n offset r s t u output fuse res e f h (x, y) =
        elim (Bool-cases (ltb offset r)) [
          | inl z ↦
              let (b, c, o, k, (st, l)) =
                rendered_turn base n offset output fuse r t (ground (arith, z)) in
              (
                b ∷ new,
                (
                  x
                      ∙ ap (λ bs. bs ++ new)
                          (ap (λ w. w.sub_blocks) f ∙ c ∙ ap (λ bs. bs ++ (b ∷ [])) e)
                      ∙ append_assoc s.sub_blocks (b ∷ []) new,
                  (
                    o,
                    ground (arith, z, k),
                    st,
                    l,
                    subst (λ m. Tiles m res.1 new) (ground (arith, z, k)) y,
                  ),
                ),
              )
          | inr z ↦
              let same : r ≡ offset = ground (arith, z, h) in
              let g =
                subst
                  (λ m.
                    (at_boundary D R max_resamp_buf sorted base n offset output fuse m
                      t).0.sub_blocks
                    ≡ t.sub_blocks)
                  (sym same) (empty_turn base n offset output fuse t) in
              (
                new,
                (
                  x ∙ ap (λ bs. bs ++ new) (ap (λ w. w.sub_blocks) f ∙ g ∙ e),
                  subst (λ m. Tiles m res.1 new) same y,
                ),
              )
        ]

    sub_blocks-Tiles :
        (fuel base n offset output : ℕ) (s : Slice D)
        → offset ≤ n
        → (sorted ≡ true → Sorted s.events)
        → (new : List (SubBlock D)) × Tiled new offset s
            (sub_blocks D R max_resamp_buf sorted fuel base n offset output s)
    unfolding sub_blocks
    sub_blocks-Tiles zero base n offset output s h q = ([], (sym (append-nil s.sub_blocks), refl))
    sub_blocks-Tiles (suc fuel) base n offset output s h q =
        let t = caught_up D R max_resamp_buf sorted (base + offset) s in
        let r = sub_end_of D R max_resamp_buf sorted base n offset t in
        let fuse = fuses D R max_resamp_buf sorted n t in
        let (u, out) = at_boundary D R max_resamp_buf sorted base n offset output fuse r t in
        elim (Bool-cases (ltb offset n)) [
          | inl y ↦
              let (hi, less, z) =
                turn D R max_resamp_buf sorted base n offset output s (ground (arith, y)) q in
              let (lo, hi') = find_boundary-range D R fuse base offset n 0 t.events h in
              let (new, w) = sub_blocks-Tiles fuel base n r out u hi z in
              rw y (
                joined new base n offset r s t u output fuse
                  (sub_blocks D R max_resamp_buf sorted fuel base n r out u)
                  (caught_up-sub_blocks (base + offset) s) refl lo w)
          | inr y ↦ rw y ([], (sym (append-nil s.sub_blocks), refl))
        ]

    -- The loop over the sub-blocks ends: with one turn for each sample and each event it has covered the
    -- whole slice, given that the events are in order if they are said to be. The sub-blocks that it
    -- renders follow one another from the first sample to the last, none is empty, and the gain steps
    -- of each, 64 at most, lie inside it.
    pub sub_blocks-cover :
        (base n : ℕ) (s : Slice D)
        → (sorted ≡ true → Sorted s.events)
        → let r = sub_blocks D R max_resamp_buf sorted (n + length s.events) base n 0 0 s in
          (r.1 ≡ n)
          × (new : List (SubBlock D)) × (r.0.sub_blocks ≡ s.sub_blocks ++ new)
          × Tiles 0 n new
    sub_blocks-cover base n s q =
        let e =
          sub_blocks-ends D R max_resamp_buf sorted (n + length s.events) base n 0 0 s (omega arith)
            (omega arith) q in
        let (new, (x, y)) = sub_blocks-Tiles (n + length s.events) base n 0 0 s (omega arith) q in
        (e, new, x, subst (λ m. Tiles 0 m new) e y)
