-- ===== src/Gestures/Flags.antt =====
-- What the flags of src/clap/plugin/shared.rs stand for: the events that are owed to the host.
use nam_plug.Prelude.{
  ℕ, ◌+◌, ◌*◌, ◌≡◌, refl, Bool, true, false, List, [], ◌∷◌, ◌++◌, none, inl, inr, Bool-cases,
  append-nil,
}
use nam_plug.Float.{set_bit, clear_bit}
use nam_plug.Engine.{Output}
use nam_plug.Gestures.{GuiState, HostEvent, gesture_begin, param_value, gesture_end, emit}

abbrev pub owed : Bool → HostEvent → List HostEvent
owed true ev = ev ∷ []
owed false ev = []

abbrev pub owed_by : ℕ → GuiState → List HostEvent
owed_by i g =
    owed (g.gesture_flags (i * 3 + 1)) (gesture_begin i)
    ++ (owed (g.gesture_flags (i * 3 + 0)) (param_value i (g.values i))
        ++ owed (g.gesture_flags (i * 3 + 2)) (gesture_end i))

-- The events owed for a list of parameters, in the order in which the host wants them.
abbrev pub owed_events : List ℕ → GuiState → List HostEvent
owed_events [] g = []
owed_events (i ∷ is) g = owed_by i g ++ owed_events is g

module _ (O : Output HostEvent) where
  -- The host's queue refuses some event in some state.
  abbrev pub Refuses : Type 0
  Refuses = (o : O.Queue) × (ev : HostEvent) × (O.try_push o ev ≡ none)

  -- What one test did: the flag is spent, with its event pushed if it was set; or the queue refused.
  pub data Emitted (i k : ℕ) (ev : HostEvent) (g : GuiState) (o : O.Queue)
      : GuiState × O.Queue × Bool → Type 0 where
    spent :
        {p : O.Queue}
        → O.items p ≡ O.items o ++ owed (g.gesture_flags (i * 3 + k)) ev
        → Emitted i k ev g o
            (record g { gesture_flags = clear_bit (i * 3 + k) g.gesture_flags }, p, true)
    kept :
        g.gesture_flags (i * 3 + k) ≡ true
        → Refuses
        → Emitted i k ev g o (
          record g {
            gesture_flags = set_bit (i * 3 + k) (clear_bit (i * 3 + k) g.gesture_flags);
            backpressure = true;
          },
          o,
          false,
        )

  pub emit-Emitted :
      (i k : ℕ) (ev : HostEvent) (g : GuiState) (o : O.Queue)
      → Emitted i k ev g o (emit O i k ev g o)
  unfolding emit
  emit-Emitted i k ev g o = elim (Bool-cases (g.gesture_flags (i * 3 + k))) [
    | inr f ↦ rw (emit, f) (spent (rw (f, append-nil) refl))
    | inl t ↦ elim (O.try_push_cases o ev) [
      | inl e ↦ rw (emit, t, e) (kept t (o, ev, e))
      | inr (p, e, h) ↦ rw (emit, t, e) (spent (rw t h))
    ]
  ]
