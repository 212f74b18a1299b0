-- ===== src/Lifecycle/Tests.antt =====
-- Runs of the window state machine, and the theorems at concrete inputs.
use mathlib.Core.List.{Memᴰ}
use nam_plug.Prelude.{◌≡◌, refl, true, false, List, [], ◌∷◌}
use nam_plug.Lifecycle.{
  GuiEvent, hidden, active, destroyed, show, hide, window_ready, window_hidden, user_closed,
  transition, is_active, is_destroyed, run,
}
use nam_plug.Lifecycle.Runs.{active_needs_show}

abbrev reopened : List GuiEvent
reopened = show ∷ hide ∷ window_hidden ∷ window_ready ∷ show ∷ window_ready ∷ []

run-reopened : run hidden reopened ≡ active
unfolding run transition
run-reopened = refl

run-closed : (is_active (run active (user_closed ∷ [])) ≡ false) × (is_destroyed destroyed ≡ true)
unfolding run transition is_active is_destroyed
run-closed = (refl, refl)

active_needs_show_example : Memᴰ show reopened
active_needs_show_example = active_needs_show reopened run-reopened
