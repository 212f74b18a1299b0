-- ===== src/Gestures/Values.antt =====
-- The value that src/clap/plugin/shared.rs sends for a changed parameter, against the one that
-- src/clap/extensions/params/main.rs answers.
use nam_plug.Prelude.{
  ℕ, zero, suc, ◌+◌, ◌*◌, ◌≤◌, ◌<◌, ◌≡◌, ◌≢◌, refl, sym, ap, ◌∙◌, ◌⊎◌, inl, inr, some, List, [],
  ◌∷◌, ◌++◌, append-nil, true, false, Bool-cases, ◌==◌, if◌then◌else◌, arith,
}
use nam_plug.Float.{u32_as_f32}
use nam_plug.Engine.{Output}
use nam_plug.Gestures.{
  GuiState, HostEvent, param_value, get_value, param_gate_thresh, param_active_model,
  param_activation, param_indices, write_gui_events,
}
use nam_plug.Gestures.Flags.{owed_events}
use nam_plug.Gestures.Drain.{Lossless, write_gui_events-Lossless}

as_f32_differs : (v : ℕ) → 1 ≤ v → v ≤ 2 → v ≢ u32_as_f32 v
unfolding u32_as_f32
as_f32_differs zero h k = elim h [ ]
as_f32_differs (suc zero) h k = λ e. omega (arith, e)
as_f32_differs (suc (suc zero)) h k = λ e. omega (arith, e)
as_f32_differs (suc (suc (suc v))) h k = absurd (omega arith)

-- Only a changed value of parameter `i` is owed.
abbrev pub NothingElse : ℕ → GuiState → Type 0
NothingElse i g =
    (g.gesture_flags (i * 3 + 0) ≡ true) × ((j : ℕ) → j ≢ i * 3 + 0 → g.gesture_flags j ≡ false)

-- What is then owed for these parameters.
abbrev value_among : ℕ → List ℕ → GuiState → List HostEvent
value_among i [] g = []
value_among i (k ∷ ks) g =
    if k == i then param_value k (g.values k) ∷ value_among i ks g else value_among i ks g

owed_events-value_among :
    (i : ℕ) (ks : List ℕ) (g : GuiState) → NothingElse i g → owed_events ks g ≡ value_among i ks g
owed_events-value_among i [] g h = refl
owed_events-value_among i (k ∷ ks) g (h, f) = elim (Bool-cases (k == i)) [
  | inl t ↦
      let e : k ≡ i = ground (arith, t) in
      let x : g.gesture_flags (k * 3 + 0) ≡ true = rw e h in
      rw
        (
          t,
          x,
          f (k * 3 + 1) (λ q. omega (arith, e, q)),
          f (k * 3 + 2) (λ q. omega (arith, e, q)),
          owed_events-value_among i ks g (h, f),
        )
        refl
  | inr t ↦
      let e : k ≢ i = ground (arith, t) in
      rw
        (
          t,
          f (k * 3 + 0) (λ q. e (omega (arith, q))),
          f (k * 3 + 1) (λ q. omega (arith, q)),
          f (k * 3 + 2) (λ q. omega (arith, q)),
          owed_events-value_among i ks g (h, f),
        )
        refl
]

stepped_cases :
    (i : ℕ)
    → param_gate_thresh < i
    → i ≢ param_active_model
    → i ≤ param_activation
    → (i ≡ 3) ⊎ ((i ≡ 5) ⊎ ((i ≡ 6) ⊎ ((i ≡ 7) ⊎ (i ≡ 8))))
stepped_cases i h k l = ground arith

value_among-stepped :
    (i : ℕ) (g : GuiState)
    → (i ≡ 3) ⊎ ((i ≡ 5) ⊎ ((i ≡ 6) ⊎ ((i ≡ 7) ⊎ (i ≡ 8))))
    → value_among i param_indices g ≡ param_value i (g.values i) ∷ []
value_among-stepped i g (inl e) = rw e refl
value_among-stepped i g (inr (inl e)) = rw e refl
value_among-stepped i g (inr (inr (inl e))) = rw e refl
value_among-stepped i g (inr (inr (inr (inl e)))) = rw e refl
value_among-stepped i g (inr (inr (inr (inr e)))) = rw e refl

module _ (O : Output HostEvent) where
  all_sent :
      (is : List ℕ) (g h : GuiState) (o p : O.Queue)
      → Lossless O is g o h p
      → owed_events is h ≡ []
      → O.items p ≡ O.items o ++ owed_events is g
  all_sent is g h o p ((sent, a, b), c, d) e =
      a ∙ ap (λ x. O.items o ++ x) (sym (append-nil sent) ∙ (rw (← e) b))

  -- When a stepped parameter that stands at 1 or 2 has changed, and nothing else is owed, and
  -- `write_gui_events` leaves nothing owed, then the host has been sent one value for this parameter,
  -- and it is another number than the one that `get_value` answers.
  pub stepped_value_differs :
      (i : ℕ) (g : GuiState) (o : O.Queue)
      → NothingElse i g
      → param_gate_thresh < i
      → i ≢ param_active_model
      → i ≤ param_activation
      → 1 ≤ g.values i
      → g.values i ≤ 2
      → owed_events param_indices (write_gui_events O g o).0 ≡ []
      → (v w : ℕ) × (O.items (write_gui_events O g o).1 ≡ O.items o ++ (param_value i v ∷ []))
        × (get_value i g ≡ some w)
        × (v ≢ w)
  unfolding get_value u32_as_f32
  stepped_value_differs i g o f h k l m n e = (
    g.values i,
    u32_as_f32 (g.values i),
    all_sent param_indices g (write_gui_events O g o).0 o (write_gui_events O g o).1
          (write_gui_events-Lossless O g o) e
        ∙ ap (λ x. O.items o ++ x)
            (owed_events-value_among i param_indices g f
              ∙ value_among-stepped i g (stepped_cases i h k l)),
    ground arith,
    as_f32_differs (g.values i) m n,
  )
