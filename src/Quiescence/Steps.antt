-- ===== src/Quiescence/Steps.antt =====
-- The interleavings of src/clap/plugin/quiescence.rs: any number of threads that enter and drop
-- guards, panics that poison the mutex, and one thread that quiesces (`destroy` calls it once).
use nam_plug.Prelude.{ℕ, ◌<◌, ◌≡◌, true, false}
use nam_plug.Quiescence.{Coordinator, enter_log, enter_call, drop_guard, notify_all, quiesce_step}

pub data Step (c : Coordinator) : Coordinator → Type 0 where
  enters_log : Step c (enter_log c).0
  enters_call : Step c (enter_call c).0
  -- A guard is dropped by the thread that owns it.
  drops : 0 < c.guards → Step c (drop_guard c)
  -- A `notify_all` that a dropped guard owes.
  notifies : 0 < c.notifies → Step c (notify_all c)
  -- A panic under the mutex, and the clearing of the mark by a guard that met it.
  poisons : Step c (record c { poisoned = true })
  unpoisons : Step c (record c { poisoned = false })
  lowers_fence : Step c (record c { alive_fence = false })
  -- The grace period runs out, or the sleep ends for no reason.
  wakes : Step c (record c { parked = false })
  -- The quiescing thread runs unless it sleeps.
  quiesces : (elapsed grace : ℕ) → c.parked ≡ false → Step c (quiesce_step elapsed grace c)

pub data Reach (c : Coordinator) : Coordinator → Type 0 where
  here : Reach c c
  next : {d e : Coordinator} → Reach c d → Step d e → Reach c e
