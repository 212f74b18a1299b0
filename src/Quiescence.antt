-- ===== src/Quiescence.antt =====
-- src/clap/plugin/quiescence.rs: `QuiescenceState`, the two coordinators (`HostLogQuiescence`,
-- `HostCallQuiescence`), their guards, and `quiesce_state`.
--
-- A critical section of the state mutex is one function. What surrounds the mutex is kept in the
-- same record: its poison mark, the condition variable (whether the quiescing thread sleeps on it,
-- and the `notify_all` calls that a guard owes after it has released the mutex), the fence of
-- `HostCallQuiescence`, and the thread in `quiesce`, by the place where it stands. `guards` counts
-- the guard values that are alive, so that `in_flight` can be compared with it.
pub mod Steps
pub mod Safety
pub mod Liveness
mod Tests
use nam_plug.Prelude.{
  ℕ, ◌+◌, ◌-◌, Bool, true, false, not, ◌&&◌, ◌||◌, Option, none, some, ltb, leb, ◌==◌,
  if◌then◌else◌,
}

pub data QuiescenceOutcome : Type 0 where
  clean : QuiescenceOutcome
  stalled_wait : ℕ → QuiescenceOutcome

-- Where the thread in `quiesce_state` stands: not called; in the first loop (`wait_timeout`);
-- between the two critical sections; in the second loop (`wait`); returned.
pub data Phase : Type 0 where
  idle : Phase
  timed : Phase
  stalled : Phase
  waiting : Phase
  returned : QuiescenceOutcome → Phase

pub record Coordinator : Type 0 where
  pub active : Bool
  pub in_flight : ℕ
  pub poisoned : Bool
  pub alive_fence : Bool
  pub guards : ℕ
  pub phase : Phase
  pub parked : Bool
  pub notifies : ℕ

unfoldable pub new : Bool → Coordinator
new alive_fence = record {
  active = true;
  in_flight = 0;
  poisoned = false;
  alive_fence = alive_fence;
  guards = 0;
  phase = idle;
  parked = false;
  notifies = 0;
}

-- `HostLogQuiescence::enter`: `self.state.lock().ok()?` gives up on a poisoned mutex. The result
-- says whether a guard was handed out.
unfoldable pub enter_log : Coordinator → Coordinator × Bool
enter_log c =
    if c.poisoned || not c.active
    then (c, false)
    else (record c { in_flight = c.in_flight + 1; guards = c.guards + 1 }, true)

-- `HostCallQuiescence::enter` also wants the fence up.
unfoldable pub enter_call : Coordinator → Coordinator × Bool
enter_call c =
    if c.poisoned || (not c.active || not c.alive_fence)
    then (c, false)
    else (record c { in_flight = c.in_flight + 1; guards = c.guards + 1 }, true)

-- `Drop` of a guard, up to `drop(state)`: `saturating_sub` (`-` stops at 0), and the note that a
-- `notify_all` is due when the count reaches zero. The poison mark is cleared afterwards.
unfoldable pub drop_guard : Coordinator → Coordinator
drop_guard c =
    let left = c.in_flight - 1 in
    record c {
      in_flight = left;
      guards = c.guards - 1;
      poisoned = false;
      notifies = if left == 0 then c.notifies + 1 else c.notifies;
    }

-- `cvar.notify_all()`: the waiting thread, if it sleeps, is woken.
unfoldable pub notify_all : Coordinator → Coordinator
notify_all c = record c { notifies = c.notifies - 1; parked = false }

-- The whole of `Drop`, where nothing comes between its two parts.
release : Coordinator → Coordinator
unfolding drop_guard notify_all
release c = let d = drop_guard c in if d.in_flight == 0 then notify_all d else d

-- `host_call(f)`: enter, run `f`, drop the guard; `None` if refused.
unfoldable pub host_call {ℓ} :
    {R : Type ℓ} → Coordinator → (Coordinator → R) → Coordinator × Option R
unfolding enter_call release
host_call c f =
    let (c', entered) = enter_call c in if entered then (release c', some (f c')) else (c', none)

-- The tail of the first critical section, from the test of the `while`, with the mutex held.
timed_loop : ℕ → ℕ → Coordinator → Coordinator
timed_loop elapsed grace c =
    if ltb 0 c.in_flight
    then (if leb grace elapsed
        then record c { phase = stalled; parked = false }
        else record c { phase = timed; parked = true })
    else record c { phase = returned clean; parked = false }

-- The second critical section from the test of its `while`, with the mutex held.
waiting_loop : ℕ → Coordinator → Coordinator
waiting_loop elapsed c =
    if ltb 0 c.in_flight
    then record c { phase = waiting; parked = true }
    else record c { phase = returned (stalled_wait elapsed); parked = false }

-- The next critical section of the thread in `quiesce_state`; `elapsed` is what `start.elapsed()`
-- reads in it. The poison mark is cleared wherever the mutex is taken.
quiesce_phase : Phase → ℕ → ℕ → Coordinator → Coordinator
unfolding timed_loop waiting_loop
quiesce_phase idle elapsed grace c =
    timed_loop elapsed grace (record c { active = false; poisoned = false })
quiesce_phase timed elapsed grace c = timed_loop elapsed grace (record c { poisoned = false })
quiesce_phase stalled elapsed grace c = waiting_loop elapsed (record c { poisoned = false })
quiesce_phase waiting elapsed grace c = waiting_loop elapsed (record c { poisoned = false })
quiesce_phase (returned o) elapsed grace c = c

unfoldable pub quiesce_step : ℕ → ℕ → Coordinator → Coordinator
unfolding quiesce_phase
quiesce_step elapsed grace c = quiesce_phase c.phase elapsed grace c

-- `is_active` and `in_flight_count` answer `false` and 0 under a poisoned mutex.
unfoldable pub is_active : Coordinator → Bool
is_active c = not c.poisoned && c.active

unfoldable pub in_flight_count : Coordinator → ℕ
in_flight_count c = if c.poisoned then 0 else c.in_flight
