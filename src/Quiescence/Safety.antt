-- ===== src/Quiescence/Safety.antt =====
-- No host call outlives `quiesce` (src/clap/plugin/quiescence.rs).
use nam_plug.Prelude.{ℕ, ◌+◌, ◌<◌, ◌≡◌, ◌⊎◌, Bool, true, false, some, none, arith}
use nam_plug.Quiescence.{
  Coordinator, Phase, idle, returned, new, enter_log, enter_call, drop_guard, notify_all, host_call,
  quiesce_step,
}
use nam_plug.Quiescence.Steps.{
  Step, enters_log, enters_call, drops, notifies, poisons, unpoisons, lowers_fence, wakes, quiesces,
  Reach, here, next,
}

abbrev pub is_returned : Phase → Bool
is_returned (returned o) = true
is_returned _ = false

abbrev pub is_idle : Phase → Bool
is_idle idle = true
is_idle _ = false

pub record Inv (c : Coordinator) : Type 0 where
  -- The count is the number of live guards: no drop is missed, and `saturating_sub` is exact.
  pub counted : c.in_flight ≡ c.guards
  -- From its first critical section on, `quiesce` keeps the coordinator inactive.
  pub inactive : is_idle c.phase ≡ false → c.active ≡ false
  pub quiet : is_returned c.phase ≡ true → c.in_flight ≡ 0
  -- The sleeping thread has something to wait for, or a notification is on its way.
  pub wakeable : c.parked ≡ true → (0 < c.in_flight) ⊎ (0 < c.notifies)

pub new-Inv : (alive_fence : Bool) → Inv (new alive_fence)
unfolding new
new-Inv alive_fence = ground arith

enter_log-Inv : {c : Coordinator} → Inv c → Inv (enter_log c).0
unfolding enter_log
enter_log-Inv {c} v = ground arith

enter_call-Inv : {c : Coordinator} → Inv c → Inv (enter_call c).0
unfolding enter_call
enter_call-Inv {c} v = ground arith

pub drop_guard-Inv : {c : Coordinator} → Inv c → Inv (drop_guard c)
unfolding drop_guard
drop_guard-Inv {c} v = ground arith

quiesce_step-Inv :
    (elapsed grace : ℕ) {c : Coordinator} → Inv c → Inv (quiesce_step elapsed grace c)
unfolding quiesce_step
quiesce_step-Inv elapsed grace {c} v = ground arith

-- Each step of the interleaving keeps the accounting, the refusal of new calls once `quiesce` has
-- begun, and the absence of a lost wake-up.
pub Step-Inv : {c d : Coordinator} → Step c d → Inv c → Inv d
unfolding notify_all
Step-Inv enters_log v = enter_log-Inv v
Step-Inv enters_call v = enter_call-Inv v
Step-Inv (drops h) v = drop_guard-Inv v
Step-Inv (notifies h) v = ground arith
Step-Inv poisons v = ground arith
Step-Inv unpoisons v = ground arith
Step-Inv lowers_fence v = ground arith
Step-Inv wakes v = ground arith
Step-Inv (quiesces elapsed grace h) v = quiesce_step-Inv elapsed grace v

pub Reach-Inv : {c d : Coordinator} → Reach c d → Inv c → Inv d
Reach-Inv here v = v
Reach-Inv (next r s) v = Step-Inv s (Reach-Inv r v)

module _ (alive_fence : Bool) {c : Coordinator} (r : Reach (new alive_fence) c) where
  -- In every state that the threads can reach, `in_flight` is the number of live guards, and when
  -- `quiesce` has returned there is none: no host call is running.
  pub returned_no_guards : (c.in_flight ≡ c.guards) × (is_returned c.phase ≡ true → c.guards ≡ 0)
  returned_no_guards = ground (arith, Reach-Inv r (new-Inv alive_fence))

  -- Once `quiesce` has begun, both kinds of `enter` refuse, whatever the fence and the poison mark.
  pub begun_refuses :
      is_idle c.phase ≡ false → (enter_log c ≡ (c, false)) × (enter_call c ≡ (c, false))
  unfolding enter_log enter_call
  begun_refuses h = ground (arith, Reach-Inv r (new-Inv alive_fence))

Step-returned :
    {c d : Coordinator} → Step c d → is_returned c.phase ≡ true → is_returned d.phase ≡ true
unfolding enter_log enter_call drop_guard notify_all quiesce_step
Step-returned enters_log h = ground arith
Step-returned enters_call h = ground arith
Step-returned (drops _) h = h
Step-returned (notifies _) h = h
Step-returned poisons h = h
Step-returned unpoisons h = h
Step-returned lowers_fence h = h
Step-returned wakes h = h
Step-returned (quiesces elapsed grace _) h = ground arith

pub Reach-returned :
    {c d : Coordinator} → Reach c d → is_returned c.phase ≡ true → is_returned d.phase ≡ true
Reach-returned here h = h
Reach-returned (next r s) h = Step-returned s (Reach-returned r h)

-- After `quiesce` has returned no interleaving brings a host call back: in every later state there
-- is no guard, so the host may free what the calls used.
pub never_after_return :
    (alive_fence : Bool) {c d : Coordinator}
    → Reach (new alive_fence) c
    → is_returned c.phase ≡ true
    → Reach c d
    → d.guards ≡ 0
never_after_return alive_fence r h later = omega (
  arith,
  (Reach-Inv later (Reach-Inv r (new-Inv alive_fence))).counted,
  (Reach-Inv later (Reach-Inv r (new-Inv alive_fence))).quiet (Reach-returned later h),
)

-- `host_call` runs its closure exactly when the mutex is not poisoned, the coordinator is active
-- and the fence is up; the closure runs with the call counted, and afterwards the counts are as
-- they were.
pub host_call_lem {ℓ} :
    {R : Type ℓ} (c : Coordinator) (f : Coordinator → R)
    → let (d, r) = host_call c f in
      (d.in_flight ≡ c.in_flight)
      × (d.guards ≡ c.guards)
      × ((c.poisoned ≡ false) × (c.active ≡ true) × (c.alive_fence ≡ true)
          → r ≡ some (f (record c { in_flight = c.in_flight + 1; guards = c.guards + 1 })))
      × ((c.poisoned ≡ true) ⊎ (c.active ≡ false) ⊎ (c.alive_fence ≡ false) → r ≡ none)
unfolding host_call
host_call_lem c f = (ground arith, ground arith, λ h. ground arith, λ h. ground arith)
