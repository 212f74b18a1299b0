-- ===== src/Lifecycle.antt =====
-- The window state machine of src/clap/gui/lifecycle.rs: `GuiLifecycle`, `GuiEvent` and
-- `GuiLifecycle::transition`. The state changes only when the transition is accepted.
pub mod Runs
mod Tests
use nam_plug.Prelude.{Bool, true, false, Option, none, some, List, [], ◌∷◌}

pub data GuiLifecycle : Type 0 where
  hidden show_requested active hide_requested destroyed : GuiLifecycle

pub data GuiEvent : Type 0 where
  show hide destroy window_ready window_hidden user_closed window_failed : GuiEvent

-- The `match` of `transition`, its arms in the order of the source; `none` is the `Err` arm.
next_state : GuiLifecycle → GuiEvent → Option GuiLifecycle
next_state show_requested window_ready = some active
next_state hide_requested window_hidden = some hidden
next_state hidden show = some show_requested
next_state active hide = some hide_requested
next_state show_requested hide = some hide_requested
next_state show_requested user_closed = some hidden
next_state active user_closed = some hidden
next_state show_requested window_failed = some hidden
next_state _ destroy = some destroyed
next_state destroyed _ = some destroyed
next_state _ _ = none

-- `transition` returns the state it leaves, and whether the event was accepted.
unfoldable pub transition : GuiLifecycle → GuiEvent → GuiLifecycle × Bool
unfolding next_state
transition s e = elim (next_state s e) [ some t ↦ (t, true) | none ↦ (s, false) ]

unfoldable pub can_show : GuiLifecycle → Bool
can_show hidden = true
can_show _ = false

unfoldable pub can_hide : GuiLifecycle → Bool
can_hide active = true
can_hide _ = false

unfoldable pub is_active : GuiLifecycle → Bool
is_active active = true
is_active _ = false

unfoldable pub is_destroyed : GuiLifecycle → Bool
is_destroyed destroyed = true
is_destroyed _ = false

-- A host and a backend that feed events one after another.
unfoldable pub run : GuiLifecycle → List GuiEvent → GuiLifecycle
run s [] = s
run s (e ∷ es) = run (transition s e).0 es
