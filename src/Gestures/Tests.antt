-- ===== src/Gestures/Tests.antt =====
-- A toggle of the bypass button, sent to a host whose queue takes one event, and then the rest.
use nam_plug.Prelude.{
  ℕ, zero, suc, ◌≡◌, ◌≢◌, ◌+◌, ◌*◌, arith, refl, ◌⊎◌, inl, inr, false, Option, none, some, List, [],
  ◌∷◌, ◌++◌,
}
use nam_plug.Float.{zero_word}
use nam_plug.Engine.{Output}
use nam_plug.Gestures.{
  GuiState, HostEvent, gesture_begin, param_value, gesture_end, param_indices, param_bypass,
  begin_gesture, mark_param_changed, end_gesture, bump_generation, write_gui_events, get_value,
}
use nam_plug.Gestures.Flags.{owed_events}
use nam_plug.Gestures.Drain.{Lossless, write_gui_events-Lossless}
use nam_plug.Gestures.Values.{stepped_value_differs}

-- A queue with a number of places.
abbrev push_bounded : ℕ × List HostEvent → HostEvent → Option (ℕ × List HostEvent)
push_bounded (zero, xs) x = none
push_bounded (suc n, xs) x = some (n, xs ++ (x ∷ []))

push_bounded-cases :
    (q : ℕ × List HostEvent) (x : HostEvent)
    → (push_bounded q x ≡ none)
      ⊎ ((r : ℕ × List HostEvent) × (push_bounded q x ≡ some r) × (r.1 ≡ q.1 ++ (x ∷ [])))
push_bounded-cases (zero, xs) x = inl refl
push_bounded-cases (suc n, xs) x = inr ((n, xs ++ (x ∷ [])), refl, refl)

abbrev bounded : Output HostEvent
bounded = record {
  Queue = ℕ × List HostEvent;
  items = λ q. q.1;
  try_push = push_bounded;
  try_push_cases = push_bounded-cases;
}

abbrev idle : GuiState
idle = record { gesture_flags = zero_word; values = λ _. 0; generation = 0; backpressure = false }

abbrev toggled : GuiState
toggled = bump_generation (
    end_gesture param_bypass (
      mark_param_changed param_bypass
        (begin_gesture param_bypass (record idle { values = λ _. 1 }))))

abbrev sent_once : GuiState × (ℕ × List HostEvent)
sent_once = write_gui_events bounded toggled (1, [])

sent_once-items : sent_once.1.1 ≡ gesture_begin 3 ∷ []
unfolding write_gui_events begin_gesture end_gesture mark_param_changed bump_generation
sent_once-items = refl

sent_twice-items :
    (write_gui_events bounded sent_once.0 (9, sent_once.1.1)).1.1
    ≡ gesture_begin 3 ∷ param_value 3 1 ∷ gesture_end 3 ∷ []
unfolding write_gui_events begin_gesture end_gesture mark_param_changed bump_generation
sent_twice-items = refl

write_gui_events-Lossless_example :
    Lossless bounded param_indices toggled (1, []) sent_once.0 sent_once.1
write_gui_events-Lossless_example = write_gui_events-Lossless bounded toggled (1, [])

abbrev changed : GuiState
changed = mark_param_changed param_bypass (record idle { values = λ _. 1 })

only_changed : (j : ℕ) → j ≢ 3 * 3 + 0 → changed.gesture_flags j ≡ false
unfolding mark_param_changed
only_changed j h = ground arith

changed_drained : owed_events param_indices (write_gui_events bounded changed (1, [])).0 ≡ []
unfolding write_gui_events mark_param_changed
changed_drained = refl

stepped_value_differs_example :
    (v w : ℕ) × ((write_gui_events bounded changed (1, [])).1.1 ≡ [] ++ (param_value 3 v ∷ []))
    × (get_value 3 changed ≡ some w)
    × (v ≢ w)
unfolding mark_param_changed
stepped_value_differs_example =
    stepped_value_differs bounded 3 changed (1, []) (refl, only_changed) (omega arith)
      (λ e. omega (arith, e)) (omega arith) (omega arith) (omega arith) changed_drained
