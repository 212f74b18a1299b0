-- ===== src/Blocks/Progress.antt =====
-- src/clap/processor/dsp/orchestrator.rs: the loop over sub-blocks ends.
use mathlib.Core.Path.{subst}
use nam_plug.Prelude.{
  ℕ, zero, suc, ◌+◌, ◌-◌, ◌≤◌, ◌<◌, ◌≡◌, refl, sym, ap, ◌∙◌, ◌⊎◌, Bool, true, false, Bool-cases,
  ◌&&◌, ◌||◌, inl, inr, List, [], ◌∷◌, length, ltb, leb, ◌==◌, arith,
}
use nam_plug.Engine.{Engine}
use nam_plug.Dsp.{Dsp}
use nam_plug.Blocks.{ScheduledEvent, GainStep, SubBlock, Render, Slice}
use nam_plug.Blocks.Event.{event_requires_boundary, apply_control, target_of, apply_motion}
use nam_plug.Blocks.Cut.{
  refresh_if, applied, apply_late, apply_at, find_boundary, staged_step, stage, stage_if, render,
  apply_at_if, fuses, at_boundary, caught_up, sub_end_of, sub_blocks,
}

abbrev pub Sorted : List ScheduledEvent → Type 0
Sorted [] = Unit
Sorted (e ∷ []) = Unit
Sorted (e ∷ f ∷ es) = (e.time ≤ f.time) × Sorted (f ∷ es)

pub Sorted-tail : (e : ScheduledEvent) (es : List ScheduledEvent) → Sorted (e ∷ es) → Sorted es
Sorted-tail e [] h = tt
Sorted-tail e (f ∷ es) (x, y) = y

abbrev pub HeadFrom : ℕ → List ScheduledEvent → Type 0
HeadFrom from [] = Unit
HeadFrom from (e ∷ es) = from ≤ e.time

-- No longer, and sorted if it was.
abbrev pub Shrinks : List ScheduledEvent → List ScheduledEvent → Type 0
Shrinks es fs = (length fs ≤ length es) × (Sorted es → Sorted fs)

Shrinks-refl : (es fs : List ScheduledEvent) → fs ≡ es → Shrinks es fs
Shrinks-refl es fs h = rw h (omega arith, λ x. x)

Shrinks-tail :
    (e : ScheduledEvent) (es fs : List ScheduledEvent) → Shrinks es fs → Shrinks (e ∷ es) fs
Shrinks-tail e es fs (x, y) = (omega (arith, x), λ h. y (Sorted-tail e es h))

Shrinks-trans : (a b c : List ScheduledEvent) → Shrinks a b → Shrinks b c → Shrinks a c
Shrinks-trans a b c (x, y) (z, w) = (omega (arith, x, z), λ h. w (y h))

module _ {E : Engine} (D : Dsp E) (R : Render D) where
  refresh_if-events : (b : Bool) (s : Slice D) → (refresh_if D R b s).events ≡ s.events
  refresh_if-events true s = refl
  refresh_if-events false s = refl

  apply_late-Shrinks :
      (from : ℕ) (es : List ScheduledEvent) (s : Slice D)
      → s.events ≡ es
      → Shrinks es (apply_late D R from es s).0.events
        × HeadFrom from (apply_late D R from es s).0.events
  unfolding apply_late
  apply_late-Shrinks from [] s h = (Shrinks-refl [] s.events h, rw h tt)
  apply_late-Shrinks from (e ∷ es) s h = elim (Bool-cases (ltb e.time from)) [
    | inl t ↦
        let (x, y) = apply_late-Shrinks from es (applied D R e es true s) refl in
        rw t (Shrinks-tail e es _ x, y)
    | inr f ↦ rw f (Shrinks-refl (e ∷ es) s.events h, rw h (ground (arith, f)))
  ]

  apply_at-Shrinks :
      (boundary : ℕ) (es : List ScheduledEvent) (s : Slice D)
      → s.events ≡ es
      → Shrinks es (apply_at D R boundary es s).events
  unfolding apply_at
  apply_at-Shrinks boundary [] s h = Shrinks-refl [] s.events h
  apply_at-Shrinks boundary (e ∷ es) s h = elim (Bool-cases (e.time == boundary)) [
    | inl t ↦
        rw t (Shrinks-tail e es _ (apply_at-Shrinks boundary es (applied D R e es false s) refl))
    | inr f ↦ rw f (Shrinks-refl (e ∷ es) s.events h)
  ]

  -- An event at the boundary is taken.
  apply_at-takes :
      (boundary : ℕ) (e : ScheduledEvent) (es : List ScheduledEvent) (s : Slice D)
      → s.events ≡ e ∷ es
      → (e.time == boundary) ≡ true
      → length (apply_at D R boundary s.events s).events < length s.events
  unfolding apply_at
  apply_at-takes boundary e es s h t =
      let (x, y) = apply_at-Shrinks boundary es (applied D R e es false s) refl in
      rw (h, t) (omega (arith, x))

  stage-Shrinks :
      (until from : ℕ) (es : List ScheduledEvent) (steps : List GainStep) (s : Slice D)
      → s.events ≡ es
      → Shrinks es (stage D R until from es steps s).0.events
  unfolding stage
  stage-Shrinks until from [] steps s h = Shrinks-refl [] s.events h
  stage-Shrinks until from (e ∷ es) steps s h =
      elim (Bool-cases (leb until e.time || event_requires_boundary e.param_id)) [
        | inl t ↦ rw t (Shrinks-refl (e ∷ es) s.events h)
        | inr f ↦ rw f (
            Shrinks-tail e es _ (
              stage-Shrinks until from es
                (staged_step D R (e.time - from) (target_of D e s.control) steps)
                (record s {
                  control = apply_control D e s.control;
                  motion = apply_motion D false e s.control s.motion;
                  events = es;
                })
                refl))
      ]

  stage_if-Shrinks :
      (b : Bool) (until from : ℕ) (s : Slice D)
      → Shrinks s.events (stage_if D R b until from s).0.events
  stage_if-Shrinks false until from s = Shrinks-refl s.events s.events refl
  stage_if-Shrinks true until from s = stage-Shrinks until from s.events [] s refl

  render-events : (b : SubBlock D) (s : Slice D) → (render D R b s).0.events ≡ s.events
  unfolding render
  render-events b s = elim (Bool-cases (ltb 0 b.sub_n)) [ inl t ↦ rw t refl | inr f ↦ rw f refl ]

  apply_at_if-Shrinks :
      (b : Bool) (boundary : ℕ) (s : Slice D)
      → Shrinks s.events (apply_at_if D R b boundary s).events
  apply_at_if-Shrinks false boundary s = Shrinks-refl s.events s.events refl
  apply_at_if-Shrinks true boundary s = apply_at-Shrinks boundary s.events s refl

  -- A boundary lies in what is left of the slice.
  pub find_boundary-range :
      (fuse : Bool) (base offset n gains : ℕ) (es : List ScheduledEvent)
      → offset ≤ n
      → (offset ≤ find_boundary D R fuse base (base + offset) n gains es)
        × (find_boundary D R fuse base (base + offset) n gains es ≤ n)
  unfolding find_boundary
  find_boundary-range fuse base offset n gains [] h = (h, omega arith)
  find_boundary-range fuse base offset n gains (e ∷ es) h =
      let (a, b) = find_boundary-range fuse base offset n gains es h in
      let (c, d) = find_boundary-range fuse base offset n (gains + 1) es h in
      (ground (arith, a, c, h), ground (arith, b, d))

  -- An event that is due stops the sub-block at its time, unless it lies beyond the slice.
  find_boundary-unfused :
      (base offset n gains : ℕ) (e : ScheduledEvent) (es : List ScheduledEvent)
      → base + offset ≤ e.time
      → let r = find_boundary D R false base (base + offset) n gains (e ∷ es) in
        (r ≡ n) ⊎ (e.time ≤ base + r)
  unfolding find_boundary
  find_boundary-unfused base offset n gains e es h = ground (arith, h)

  find_boundary-Sorted :
      (fuse : Bool) (base offset n gains : ℕ) (e : ScheduledEvent) (es : List ScheduledEvent)
      → base + offset ≤ e.time
      → Sorted (e ∷ es)
      → let r = find_boundary D R fuse base (base + offset) n gains (e ∷ es) in
        (r ≡ n) ⊎ (e.time ≤ base + r)
  unfolding find_boundary
  find_boundary-Sorted fuse base offset n gains e [] h s = ground (arith, h)
  find_boundary-Sorted fuse base offset n gains e (f ∷ fs) h (x, y) =
      let c = find_boundary-Sorted fuse base offset n (gains + 1) f fs (omega (arith, h, x)) y in
      ground (arith, c, h, x)

  find_boundary-head :
      (fuse : Bool) (base offset n gains : ℕ) (e : ScheduledEvent) (es : List ScheduledEvent)
      → base + offset ≤ e.time
      → (fuse ≡ true → Sorted (e ∷ es))
      → let r = find_boundary D R fuse base (base + offset) n gains (e ∷ es) in
        (r ≡ n) ⊎ (e.time ≤ base + r)
  find_boundary-head false base offset n gains e es h s =
      find_boundary-unfused base offset n gains e es h
  find_boundary-head true base offset n gains e es h s =
      find_boundary-Sorted true base offset n gains e es h (s refl)

  -- Events are fused only when they are in order.
  fuses_in_order :
      (max_resamp_buf : ℕ) (sorted : Bool) (n : ℕ) (s : Slice D)
      → fuses D R max_resamp_buf sorted n s ≡ true
      → sorted ≡ true
  fuses_in_order max_resamp_buf true n s h = refl
  fuses_in_order max_resamp_buf false n s h = cc h

  module _ (max_resamp_buf : ℕ) (sorted : Bool) where
    caught_up-Shrinks :
        (from : ℕ) (s : Slice D)
        → let t = caught_up D R max_resamp_buf sorted from s in
          Shrinks s.events t.events × HeadFrom from t.events
    unfolding caught_up
    caught_up-Shrinks from s =
        let (t, late) = apply_late D R from s.events s in
        let e = refresh_if-events late t in
        subst (λ es. Shrinks s.events es × HeadFrom from es) (sym e)
          (apply_late-Shrinks from s.events s refl)

    at_boundary-Shrinks :
        (base n offset output : ℕ) (fuse : Bool) (sub_end : ℕ) (s : Slice D)
        → Shrinks s.events
            (at_boundary D R max_resamp_buf sorted base n offset output fuse sub_end s).0.events
    unfolding at_boundary
    at_boundary-Shrinks base n offset output fuse sub_end s =
        let staging = fuse && ltb 0 (sub_end - offset) in
        let (t, steps) = stage_if D R staging (base + sub_end) (base + offset) s in
        let b : SubBlock D = record {
          block_offset = offset;
          sub_n = sub_end - offset;
          output_offset = output;
          gain_steps = steps;
          control = t.control;
        } in
        let r = (render D R b t).0 in
        Shrinks-trans s.events r.events (apply_at_if D R (ltb sub_end n) (base + sub_end) r).events
          (Shrinks-trans s.events t.events r.events
            (stage_if-Shrinks staging (base + sub_end) (base + offset) s)
            (Shrinks-refl t.events r.events (render-events b t)))
          (apply_at_if-Shrinks (ltb sub_end n) (base + sub_end) r)

    -- A sub-block of no samples takes the event that is due.
    at_boundary-takes :
        (base n offset output : ℕ) (fuse : Bool) (s : Slice D) (e : ScheduledEvent)
        (es : List ScheduledEvent)
        → offset < n
        → s.events ≡ e ∷ es
        → e.time ≡ base + offset
        → length (at_boundary D R max_resamp_buf sorted base n offset output fuse offset s).0.events
          < length s.events
    unfolding at_boundary render
    at_boundary-takes base n offset output fuse s e es h k q =
        let none_staged : (fuse && ltb 0 (offset - offset)) ≡ false = ground arith in
        let nothing : ltb 0 (offset - offset) ≡ false = ground arith in
        let inside : ltb offset n ≡ true = ground (arith, h) in
        rw (none_staged, nothing, inside)
          (apply_at-takes (base + offset) e es s k (ground (arith, q)))

    due_taken :
        (base n offset output r : ℕ) (t : Slice D) (es : List ScheduledEvent)
        → t.events ≡ es
        → offset < n
        → HeadFrom (base + offset) es
        → (fuses D R max_resamp_buf sorted n t ≡ true → Sorted es)
        → sub_end_of D R max_resamp_buf sorted base n offset t ≡ r
        → r ≡ offset
        → length
            (at_boundary D R max_resamp_buf sorted base n offset output
              (fuses D R max_resamp_buf sorted n t)
              r
              t).0.events
          < length t.events
    unfolding find_boundary
    due_taken base n offset output r t [] e h due q k j =
        let f =
          ap
            (λ xs.
              find_boundary D R (fuses D R max_resamp_buf sorted n t) base (base + offset) n 0 xs)
            e in
        let z : n ≡ r = sym f ∙ k in absurd (omega (arith, z, j, h))
    due_taken base n offset output r t (x ∷ xs) e h due q k j =
        let fuse = fuses D R max_resamp_buf sorted n t in
        let f = ap (λ ys. find_boundary D R fuse base (base + offset) n 0 ys) e in
        let g = find_boundary-head fuse base offset n 0 x xs due q in
        let z : find_boundary D R fuse base (base + offset) n 0 (x ∷ xs) ≡ r = sym f ∙ k in
        let w : (r ≡ n) ⊎ (x.time ≤ base + r) = subst (λ m. (m ≡ n) ⊎ (x.time ≤ base + m)) z g in
        let at : x.time ≡ base + offset = ground (arith, w, j, h, due) in
        subst
          (λ m.
            length (at_boundary D R max_resamp_buf sorted base n offset output fuse m t).0.events
            < length t.events)
          (sym j) (at_boundary-takes base n offset output fuse t x xs h e at)

    -- One turn of the loop: the boundary lies ahead, and fewer samples and events are left.
    pub turn :
        (base n offset output : ℕ) (s : Slice D)
        → offset < n
        → (sorted ≡ true → Sorted s.events)
        → let t = caught_up D R max_resamp_buf sorted (base + offset) s in
          let r = sub_end_of D R max_resamp_buf sorted base n offset t in
          let fuse = fuses D R max_resamp_buf sorted n t in
          let u = (at_boundary D R max_resamp_buf sorted base n offset output fuse r t).0 in
          (r ≤ n)
          × (n - r + length u.events < n - offset + length s.events)
          × (sorted ≡ true → Sorted u.events)
    turn base n offset output s h q =
        let t = caught_up D R max_resamp_buf sorted (base + offset) s in
        let r = sub_end_of D R max_resamp_buf sorted base n offset t in
        let fuse = fuses D R max_resamp_buf sorted n t in
        let ((a, a'), due) = caught_up-Shrinks (base + offset) s in
        let (b, b') = at_boundary-Shrinks base n offset output fuse r t in
        let (lo, hi) = find_boundary-range fuse base offset n 0 t.events (omega (arith, h)) in
        let in_order : fuse ≡ true → Sorted t.events =
          λ z. a' (q (fuses_in_order max_resamp_buf sorted n t z)) in
        (
          hi,
          elim (Bool-cases (ltb offset r)) [
            | inl y ↦
                let ahead : offset < r = ground (arith, y) in omega (arith, ahead, a, b, h, hi)
            | inr y ↦
                let same : r ≡ offset = ground (arith, y, lo) in
                let taken =
                  due_taken base n offset output r t t.events refl h due in_order refl same in
                omega (arith, taken, a, h, hi, same)
          ],
          λ z. b' (a' (q z)),
        )

    pub sub_blocks-ends :
        (fuel base n offset output : ℕ) (s : Slice D)
        → offset ≤ n
        → n - offset + length s.events ≤ fuel
        → (sorted ≡ true → Sorted s.events)
        → (sub_blocks D R max_resamp_buf sorted fuel base n offset output s).1 ≡ n
    unfolding sub_blocks
    sub_blocks-ends zero base n offset output s h f q = omega (arith, h, f)
    sub_blocks-ends (suc fuel) base n offset output s h f q =
        let t = caught_up D R max_resamp_buf sorted (base + offset) s in
        let r = sub_end_of D R max_resamp_buf sorted base n offset t in
        let fuse = fuses D R max_resamp_buf sorted n t in
        let (u, out) = at_boundary D R max_resamp_buf sorted base n offset output fuse r t in
        elim (Bool-cases (ltb offset n)) [
          | inl y ↦
              let (hi, less, z) = turn base n offset output s (ground (arith, y)) q in
              rw y (sub_blocks-ends fuel base n r out u hi (omega (arith, less, f)) z)
          | inr y ↦ rw y (ground (arith, y, h))
        ]
