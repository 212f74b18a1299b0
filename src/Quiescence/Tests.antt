-- ===== src/Quiescence/Tests.antt =====
-- One host call and a `quiesce` that meets it, and the theorems at this run.
use nam_plug.Prelude.{◌≡◌, refl, true, false, arith}
use nam_plug.Quiescence.{
  Coordinator, clean, stalled_wait, returned, new, enter_log, enter_call, drop_guard, notify_all,
  quiesce_step, is_active, in_flight_count,
}
use nam_plug.Quiescence.Steps.{Step, enters_call, quiesces, drops, notifies, Reach, here, next}
use nam_plug.Quiescence.Safety.{is_returned, returned_no_guards, never_after_return}
use nam_plug.Quiescence.Liveness.{Calm, begun_returns}

-- A call is in flight, and `quiesce(50)` waits for it.
abbrev called : Coordinator
called = (enter_call (new true)).0

abbrev met : Coordinator
met = quiesce_step 0 50 called

abbrev over : Coordinator
over = quiesce_step 20 50 (notify_all (drop_guard met))

Reach-met : Reach (new true) met
unfolding enter_call new
Reach-met = next (next here enters_call) (quiesces 0 50 refl)

Reach-over : Reach (new true) over
unfolding quiesce_step enter_call new drop_guard notify_all
Reach-over =
    next (next (next Reach-met (drops (omega arith))) (notifies (omega arith)))
      (quiesces 20 50 refl)

phase-over : over.phase ≡ returned clean
unfolding quiesce_step enter_call new drop_guard notify_all
phase-over = refl

-- Past the grace period the same run waits without a bound, and reports the wait.
phase_stalled :
    (quiesce_step 90 50 (drop_guard (quiesce_step 60 50 (quiesce_step 60 50 called)))).phase
    ≡ returned (stalled_wait 90)
unfolding quiesce_step enter_call new drop_guard
phase_stalled = refl

counts-met : (is_active met ≡ false) × (in_flight_count met ≡ 1)
unfolding quiesce_step enter_call new is_active in_flight_count
counts-met = (refl, refl)

returned_no_guards_example :
    (over.in_flight ≡ over.guards) × (is_returned over.phase ≡ true → over.guards ≡ 0)
returned_no_guards_example = returned_no_guards true Reach-over

never_after_return_example : (enter_log over).0.guards ≡ 0
unfolding quiesce_step enter_call new drop_guard notify_all
never_after_return_example = never_after_return true Reach-over refl (next here Step.enters_log)

begun_returns_example : (d : Coordinator) × Calm 20 50 met d × (is_returned d.phase ≡ true)
unfolding quiesce_step enter_call new
begun_returns_example = begun_returns true 20 50 Reach-met refl
