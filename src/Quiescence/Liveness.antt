-- ===== src/Quiescence/Liveness.antt =====
-- `quiesce` (src/clap/plugin/quiescence.rs) comes to its end: no wake-up is lost.
use nam_plug.Prelude.{ℕ, zero, suc, ◌<◌, ◌≡◌, refl, inl, inr, Bool, true, false, Bool-cases, arith}
use nam_plug.Quiescence.{Coordinator, new, drop_guard, notify_all, quiesce_step}
use nam_plug.Quiescence.Steps.{Reach}
use nam_plug.Quiescence.Safety.{Inv, is_returned, is_idle, new-Inv, drop_guard-Inv, Reach-Inv}

-- Runs in which no thread enters, nothing times out and no sleep ends by itself: guards are
-- dropped, owed notifications are delivered, and the quiescing thread runs when it is awake.
pub data Calm (elapsed grace : ℕ) : Coordinator → Coordinator → Type 0 where
  done : {c : Coordinator} → Calm elapsed grace c c
  drop :
      {c d : Coordinator}
      → 0 < c.guards
      → Calm elapsed grace (drop_guard c) d
      → Calm elapsed grace c d
  notify :
      {c d : Coordinator}
      → 0 < c.notifies
      → Calm elapsed grace (notify_all c) d
      → Calm elapsed grace c d
  run :
      {c d : Coordinator}
      → c.parked ≡ false
      → Calm elapsed grace (quiesce_step elapsed grace c) d
      → Calm elapsed grace c d

module _ (elapsed grace : ℕ) where
  abbrev Returns : Coordinator → Type 0
  Returns c = (d : Coordinator) × Calm elapsed grace c d × (is_returned d.phase ≡ true)

  quiesce_step-returned :
      (c : Coordinator)
      → is_idle c.phase ≡ false
      → c.in_flight ≡ 0
      → is_returned (quiesce_step elapsed grace c).phase ≡ true
  unfolding quiesce_step
  quiesce_step-returned c h e = ground arith

  awake-Returns :
      (c : Coordinator) → is_idle c.phase ≡ false → c.in_flight ≡ 0 → c.parked ≡ false → Returns c
  awake-Returns c h e p = (quiesce_step elapsed grace c, run p done, quiesce_step-returned c h e)

  drained-Returns :
      (c : Coordinator) → Inv c → is_idle c.phase ≡ false → c.in_flight ≡ 0 → Returns c
  unfolding notify_all
  drained-Returns c v h e = elim (Bool-cases c.parked) [
    | inr p ↦ awake-Returns c h e p
    | inl p ↦
        let (d, w, r) = awake-Returns (notify_all c) h e refl in
        (d, notify (ground (arith, v.wakeable)) w, r)
  ]

  busy-Returns :
      (n : ℕ) (c : Coordinator) → Inv c → is_idle c.phase ≡ false → c.guards ≡ n → Returns c
  unfolding drop_guard
  busy-Returns zero c v h e = drained-Returns c v h (omega (arith, v.counted))
  busy-Returns (suc n) c v h e =
      let (d, w, r) = busy-Returns n (drop_guard c) (drop_guard-Inv v) h (omega arith) in
      (d, drop (omega arith) w, r)

-- From every reachable state in which `quiesce` has begun it is brought to its return by nothing but
-- the drops of the live guards, the notifications that they owe and its own steps: no wake-up is
-- lost, whatever the clock reads.
pub begun_returns :
    (alive_fence : Bool) (elapsed grace : ℕ) {c : Coordinator}
    → Reach (new alive_fence) c
    → is_idle c.phase ≡ false
    → (d : Coordinator) × Calm elapsed grace c d × (is_returned d.phase ≡ true)
begun_returns alive_fence elapsed grace {c} r h =
    busy-Returns elapsed grace c.guards c (Reach-Inv r (new-Inv alive_fence)) h refl
