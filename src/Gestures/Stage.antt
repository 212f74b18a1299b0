-- ===== src/Gestures/Stage.antt =====
-- One parameter of `write_gui_events` in src/clap/plugin/shared.rs: its three tests in turn.
use nam_plug.Prelude.{
  ℕ, ◌+◌, ◌*◌, ◌≤◌, ◌<◌, ◌≡◌, refl, sym, Bool, true, false, List, [], ◌++◌, ◌⊎◌, arith, append-nil,
  append_assoc,
}
use nam_plug.Float.{Word, clear_bit}
use nam_plug.Engine.{Output}
use nam_plug.Gestures.{
  GuiState, HostEvent, gesture_begin, param_value, gesture_end, emit, emit_param, go_on,
  gesture_changed_shift, gesture_end_shift,
}
use nam_plug.Gestures.Flags.{owed, owed_by, Refuses, Emitted, spent, kept, emit-Emitted}

module _ (O : Output HostEvent) where
  -- What one stage of the drain did with the events that parameter `i` is owed.
  pub data Stage (i : ℕ) (g : GuiState) (o : O.Queue) : GuiState × O.Queue × Bool → Type 0 where
    emptied :
        {h : GuiState} {p : O.Queue}
        → O.items p ≡ O.items o ++ owed_by i g
        → owed_by i h ≡ []
        → ((j : ℕ) → (j < i * 3) ⊎ (i * 3 + 3 ≤ j) → h.gesture_flags j ≡ g.gesture_flags j)
        → h.values ≡ g.values
        → h.backpressure ≡ g.backpressure
        → Stage i g o (h, p, true)
    refused :
        {h : GuiState} {p : O.Queue} (sent : List HostEvent)
        → O.items p ≡ O.items o ++ sent
        → sent ++ owed_by i h ≡ owed_by i g
        → ((j : ℕ) → (j < i * 3) ⊎ (i * 3 + 3 ≤ j) → h.gesture_flags j ≡ g.gesture_flags j)
        → h.values ≡ g.values
        → h.backpressure ≡ true
        → Refuses O
        → Stage i g o (h, p, false)

  abbrev after_value : ℕ → GuiState → O.Queue → GuiState × O.Queue × Bool
  after_value i g o = emit O i gesture_end_shift (gesture_end i) g o

  abbrev after_begin : ℕ → GuiState → O.Queue → GuiState × O.Queue × Bool
  after_begin i g o =
      go_on O (emit O i gesture_changed_shift (param_value i (g.values i)) g o) (after_value i)

  abbrev value_of : ℕ → GuiState → HostEvent
  value_of i g = param_value i (g.values i)

  -- The state after the first test, and after the second.
  abbrev past_begin : ℕ → GuiState → GuiState
  past_begin i g = record g { gesture_flags = clear_bit (i * 3 + 1) g.gesture_flags }

  abbrev past_value : ℕ → GuiState → GuiState
  past_value i g = record g {
    gesture_flags = clear_bit (i * 3 + 0) (clear_bit (i * 3 + 1) g.gesture_flags);
  }

  assoc_three : (ws xs ys zs : List HostEvent) → (ws ++ (xs ++ ys)) ++ zs ≡ ws ++ (xs ++ (ys ++ zs))
  assoc_three ws xs ys zs = rw (append_assoc ws (xs ++ ys) zs, append_assoc xs ys zs) refl

  end-Stage :
      (i : ℕ) (g : GuiState) (o p q : O.Queue) (r : GuiState × O.Queue × Bool)
      → O.items p ≡ O.items o ++ owed (g.gesture_flags (i * 3 + 1)) (gesture_begin i)
      → O.items q ≡ O.items p ++ owed (g.gesture_flags (i * 3 + 0)) (value_of i g)
      → Emitted O i 2 (gesture_end i) (past_value i g) q r
      → Stage i g o r
  end-Stage i g o p q _ e f (spent {p = x} h) =
      emptied
        (rw
          (
            h,
            f,
            e,
            clear_two g.gesture_flags,
            append_assoc (O.items o) (owed (g.gesture_flags (i * 3 + 1)) (gesture_begin i))
                (owed (g.gesture_flags (i * 3 + 0)) (value_of i g)),
          )
          (assoc_three (O.items o) (owed (g.gesture_flags (i * 3 + 1)) (gesture_begin i))
            (owed (g.gesture_flags (i * 3 + 0)) (value_of i g))
            (owed (g.gesture_flags (i * 3 + 2)) (gesture_end i))))
        (ground arith) (λ j k. ground arith) refl refl
    where
      clear_two :
          (w : Word) → clear_bit (i * 3 + 0) (clear_bit (i * 3 + 1) w) (i * 3 + 2) ≡ w (i * 3 + 2)
      clear_two w = ground arith
  end-Stage i g o p q _ e f (kept t n) =
      refused
        (owed (g.gesture_flags (i * 3 + 1)) (gesture_begin i)
          ++ owed (g.gesture_flags (i * 3 + 0)) (value_of i g))
        (rw (f, e)
          (append_assoc (O.items o) (owed (g.gesture_flags (i * 3 + 1)) (gesture_begin i))
            (owed (g.gesture_flags (i * 3 + 0)) (value_of i g))))
        (ground arith) (λ j k. ground arith) refl refl n

  value-Stage :
      (i : ℕ) (g : GuiState) (o p : O.Queue) (r : GuiState × O.Queue × Bool)
      → O.items p ≡ O.items o ++ owed (g.gesture_flags (i * 3 + 1)) (gesture_begin i)
      → Emitted O i 0 (value_of i g) (past_begin i g) p r
      → Stage i g o (go_on O r (after_value i))
  value-Stage i g o p _ e (spent {p = x} h) =
      end-Stage i g o p x (after_value i (past_value i g) x) e (rw h (ground arith))
        (emit-Emitted O i 2 (gesture_end i) (past_value i g) x)
  value-Stage i g o p _ e (kept t n) =
      refused (owed (g.gesture_flags (i * 3 + 1)) (gesture_begin i)) e (ground arith)
        (λ j k. ground arith) refl refl n

  begin-Stage :
      (i : ℕ) (g : GuiState) (o : O.Queue) (r : GuiState × O.Queue × Bool)
      → Emitted O i 1 (gesture_begin i) g o r
      → Stage i g o (go_on O r (after_begin i))
  begin-Stage i g o _ (spent {p = x} h) =
      value-Stage i g o x (emit O i gesture_changed_shift (value_of i g) (past_begin i g) x) h
        (emit-Emitted O i 0 (value_of i g) (past_begin i g) x)
  begin-Stage i g o _ (kept t n) =
      refused [] (sym (append-nil (O.items o))) (ground arith) (λ j k. ground arith) refl refl n

  pub emit_param-Stage : (i : ℕ) (g : GuiState) (o : O.Queue) → Stage i g o (emit_param O i g o)
  unfolding emit_param
  emit_param-Stage i g o =
      begin-Stage i g o (emit O i 1 (gesture_begin i) g o)
        (emit-Emitted O i 1 (gesture_begin i) g o)
