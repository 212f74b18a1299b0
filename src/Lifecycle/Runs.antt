-- ===== src/Lifecycle/Runs.antt =====
-- What holds of `GuiLifecycle::transition` (src/clap/gui/lifecycle.rs) over whole runs.
use mathlib.Core.List.{Memᴰ}
use nam_plug.Prelude.{◌≡◌, refl, sym, ◌↔◌, ◌⊎◌, inl, inr, Bool, true, false, List, [], ◌∷◌, arith}
use nam_plug.Lifecycle.{
  GuiLifecycle, GuiEvent, hidden, show_requested, active, hide_requested, destroyed, show, hide,
  destroy, window_ready, window_hidden, user_closed, window_failed, transition, can_show, can_hide,
  run,
}

-- The rows of the table in the documentation of `GuiLifecycle`.
pub data Row : GuiLifecycle → GuiEvent → GuiLifecycle → Type 0 where
  shown : Row hidden show show_requested
  mapped : Row show_requested window_ready active
  hidden_early : Row show_requested hide hide_requested
  hidden_late : Row active hide hide_requested
  unmapped : Row hide_requested window_hidden hidden
  failed : Row show_requested window_failed hidden
  closed_early : Row show_requested user_closed hidden
  closed : Row active user_closed hidden
  ended : (s : GuiLifecycle) → Row s destroy destroyed
  stays : (e : GuiEvent) → Row destroyed e destroyed

ruleset rows =
    (shown, mapped, hidden_early, hidden_late, unmapped, failed, closed_early, closed, ended, stays)

-- An accepted transition is a row of the documented table, and a rejected one leaves the state.
pub transition-Row :
    (s : GuiLifecycle) (e : GuiEvent)
    → ((transition s e).1 ≡ true → Row s e (transition s e).0)
      × ((transition s e).1 ≡ false → (transition s e).0 ≡ s)
unfolding transition
transition-Row s e = (λ h. grind (arith, rows), λ h. ground arith)

ended_lem : (s : GuiLifecycle) → transition s destroy ≡ (destroyed, true)
unfolding transition
ended_lem s = ground arith

stays_lem : (e : GuiEvent) → transition destroyed e ≡ (destroyed, true)
unfolding transition
stays_lem e = ground arith

-- Every row of the documented table is accepted, with the row's next state.
pub Row-transition : {s t : GuiLifecycle} {e : GuiEvent} → Row s e t → transition s e ≡ (t, true)
unfolding transition
Row-transition shown = refl
Row-transition mapped = refl
Row-transition hidden_early = refl
Row-transition hidden_late = refl
Row-transition unmapped = refl
Row-transition failed = refl
Row-transition closed_early = refl
Row-transition closed = refl
Row-transition (ended s) = ended_lem s
Row-transition (stays e) = stays_lem e

run-destroyed : (es : List GuiEvent) → run destroyed es ≡ destroyed
unfolding run
run-destroyed [] = refl
run-destroyed (e ∷ es) = rw (stays_lem e) (run-destroyed es)

-- Once the host has destroyed the window no later event, legal or not, leaves `destroyed`.
pub destroy_absorbs : (s : GuiLifecycle) (es : List GuiEvent) → run s (destroy ∷ es) ≡ destroyed
unfolding run
destroy_absorbs s es = rw (ended_lem s) (run-destroyed es)

-- The states in which the host has asked for the window and not yet seen it go.
abbrev is_requested : GuiLifecycle → Bool
is_requested hidden = false
is_requested destroyed = false
is_requested _ = true

transition-requested :
    (s : GuiLifecycle) (e : GuiEvent)
    → is_requested s ≡ false
    → (e ≡ show) ⊎ (is_requested (transition s e).0 ≡ false)
unfolding transition
transition-requested s e h = ground arith

requested_needs_show :
    (s : GuiLifecycle) (es : List GuiEvent)
    → is_requested s ≡ false
    → is_requested (run s es) ≡ true
    → Memᴰ show es
unfolding run
requested_needs_show s [] h r = cc
requested_needs_show s (e ∷ es) h r = elim (transition-requested s e h) [
  | inl p ↦ Memᴰ.head (sym p)
  | inr q ↦ Memᴰ.tail (requested_needs_show (transition s e).0 es q r)
]

-- A window that starts hidden is never active unless the host has called `show`.
pub active_needs_show : (es : List GuiEvent) → run hidden es ≡ active → Memᴰ show es
active_needs_show es h = requested_needs_show hidden es refl (rw h)

-- `can_show` tells exactly when `show` moves the window to `show_requested`; `can_hide` leaves out
-- exactly one state in which `hide` moves it to `hide_requested`, namely `show_requested`.
pub can_show-can_hide :
    (s : GuiLifecycle)
    → ((can_show s ≡ true) ↔ (transition s show ≡ (show_requested, true)))
      × ((transition s hide ≡ (hide_requested, true))
          ↔ ((can_hide s ≡ true) ⊎ (s ≡ show_requested)))
unfolding transition can_show can_hide
can_show-can_hide s = ((ground arith, ground arith), (ground arith, ground arith))
