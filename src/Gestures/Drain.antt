-- ===== src/Gestures/Drain.antt =====
-- `write_gui_events` of src/clap/plugin/shared.rs: no event is lost, and their order is kept.
use nam_plug.Prelude.{
  ℕ, zero, suc, ◌+◌, ◌*◌, ◌≤◌, ◌<◌, ◌≡◌, refl, sym, ap, ◌∙◌, Bool, true, false, List, [], ◌∷◌, ◌++◌,
  ◌⊎◌, inl, inr, Bool-cases, arith, append-nil, append_assoc, All,
}
use nam_plug.Float.{Word, is_zero_word}
use nam_plug.Engine.{Output}
use nam_plug.Gestures.{
  GuiState, HostEvent, param_indices, emit_param, emit_params, write_gui_events, go_on,
}
use nam_plug.Gestures.Flags.{owed_by, owed_events, Refuses}
use nam_plug.Gestures.Stage.{Stage, emptied, refused, emit_param-Stage}

-- Indices in ascending order, the first at least `m`.
abbrev Ascending : ℕ → List ℕ → Type 0
Ascending m [] = Unit
Ascending m (i ∷ is) = (m ≤ i) × Ascending (i + 1) is

owed_by-agree :
    (i : ℕ) (g h : GuiState)
    → h.values ≡ g.values
    → h.gesture_flags (i * 3 + 0) ≡ g.gesture_flags (i * 3 + 0)
    → h.gesture_flags (i * 3 + 1) ≡ g.gesture_flags (i * 3 + 1)
    → h.gesture_flags (i * 3 + 2) ≡ g.gesture_flags (i * 3 + 2)
    → owed_by i h ≡ owed_by i g
owed_by-agree i g h v a b c = rw (a, b, c, v) refl

owed_events-agree :
    (m : ℕ) (is : List ℕ) (g h : GuiState)
    → Ascending m is
    → h.values ≡ g.values
    → ((j : ℕ) → m * 3 ≤ j → h.gesture_flags j ≡ g.gesture_flags j)
    → owed_events is h ≡ owed_events is g
owed_events-agree m [] g h a v f = refl
owed_events-agree m (i ∷ is) g h (l, a) v f =
    rw
      (
        owed_by-agree i g h v (f (i * 3 + 0) (omega arith)) (f (i * 3 + 1) (omega arith))
            (f (i * 3 + 2) (omega arith)),
        owed_events-agree (i + 1) is g h a v (λ j k. f j (omega arith)),
      )
      refl

kept_by :
    (i : ℕ) (g h : GuiState)
    → h.values ≡ g.values
    → ((j : ℕ) → j < (i + 1) * 3 → h.gesture_flags j ≡ g.gesture_flags j)
    → owed_by i h ≡ owed_by i g
kept_by i g h v f =
    owed_by-agree i g h v (f (i * 3 + 0) (omega arith)) (f (i * 3 + 1) (omega arith))
      (f (i * 3 + 2) (omega arith))

is_zero_word-clear :
    (width : ℕ) (w : Word) → is_zero_word width w ≡ true → (j : ℕ) → j < width → w j ≡ false
is_zero_word-clear zero w e j h = elim h [ ]
is_zero_word-clear (suc width) w e j h = elim (Bool-cases (w width)) [
  | inl t ↦ ground (arith, e, t)
  | inr f ↦ elim (last_or_below h) [
    | inl k ↦ rw k f
    | inr k ↦ is_zero_word-clear width w (ground (arith, e, f)) j k
  ]
]
  where
    last_or_below : j < suc width → (j ≡ width) ⊎ (j < width)
    last_or_below h = ground arith

nothing_owed :
    (is : List ℕ) (g : GuiState)
    → ((j : ℕ) → j < 32 → g.gesture_flags j ≡ false)
    → All (λ i. i < 9) is
    → owed_events is g ≡ []
nothing_owed [] g f _ = refl
nothing_owed (i ∷ is) g f (h, k) =
    rw
      (
        f (i * 3 + 0) (omega arith),
        f (i * 3 + 1) (omega arith),
        f (i * 3 + 2) (omega arith),
        nothing_owed is g f k,
      )
      refl

module _ (O : Output HostEvent) where
  -- What the loop did: it pushed all that was owed, or stopped at a refusal with the rest owed.
  pub data Drained (m : ℕ) (is : List ℕ) (g : GuiState) (o : O.Queue)
      : GuiState × O.Queue × Bool → Type 0 where
    all :
        {h : GuiState} {p : O.Queue}
        → O.items p ≡ O.items o ++ owed_events is g
        → owed_events is h ≡ []
        → ((j : ℕ) → j < m * 3 → h.gesture_flags j ≡ g.gesture_flags j)
        → h.values ≡ g.values
        → h.backpressure ≡ g.backpressure
        → Drained m is g o (h, p, true)
    stopped :
        {h : GuiState} {p : O.Queue} (sent : List HostEvent)
        → O.items p ≡ O.items o ++ sent
        → sent ++ owed_events is h ≡ owed_events is g
        → ((j : ℕ) → j < m * 3 → h.gesture_flags j ≡ g.gesture_flags j)
        → h.values ≡ g.values
        → h.backpressure ≡ true
        → Refuses O
        → Drained m is g o (h, p, false)

  join :
      (m i : ℕ) (is : List ℕ) (g h : GuiState) (o p : O.Queue) (r : GuiState × O.Queue × Bool)
      → Ascending m (i ∷ is)
      → Stage O i g o (h, p, true)
      → Drained (i + 1) is h p r
      → Drained m (i ∷ is) g o r
  join m i is g h o p _ (l, a) (emptied b c d e f) (all {h = x} b2 c2 d2 e2 f2) =
      all (rw (b2, b, rest_agrees) (append_assoc (O.items o) (owed_by i g) (owed_events is g)))
        (rw (kept_by i h x e2 d2, c, c2) refl) (λ j k. d2 j (omega arith) ∙ d j (inl (omega arith)))
        (e2 ∙ e) (f2 ∙ f)
    where
      rest_agrees : owed_events is h ≡ owed_events is g
      rest_agrees = owed_events-agree (i + 1) is g h a e (λ j k. d j (inr (omega arith)))
  join m i is g h o p _ (l, a) (emptied b c d e f) (stopped {h = x} sent b2 c2 d2 e2 f2 n) =
      stopped (owed_by i g ++ sent) (rw (b2, b) (append_assoc (O.items o) (owed_by i g) sent))
        (rw
          (
            kept_by i h x e2 d2,
            c,
            append_assoc (owed_by i g) sent (owed_events is x),
            c2,
            rest_agrees,
          )
          refl)
        (λ j k. d2 j (omega arith) ∙ d j (inl (omega arith))) (e2 ∙ e) f2 n
    where
      rest_agrees : owed_events is h ≡ owed_events is g
      rest_agrees = owed_events-agree (i + 1) is g h a e (λ j k. d j (inr (omega arith)))

  after-Stage :
      (m i : ℕ) (is : List ℕ) (g : GuiState) (o : O.Queue) (r : GuiState × O.Queue × Bool)
      → Ascending m (i ∷ is)
      → Stage O i g o r
      → ((h : GuiState) (p : O.Queue) → Drained (i + 1) is h p (emit_params O is h p))
      → Drained m (i ∷ is) g o (go_on O r (emit_params O is))
  after-Stage m i is g o _ a (emptied {h = h} {p = p} b c d e f) k =
      join m i is g h o p (emit_params O is h p) a (emptied b c d e f) (k h p)
  after-Stage m i is g o _ (l, a) (refused {h = h} sent b c d e f n) k =
      stopped {h = h} sent b
        (rw rest_agrees (
          sym (append_assoc sent (owed_by i h) (owed_events is g))
          ∙ ap (λ xs. xs ++ owed_events is g) c))
        (λ j k. d j (inl (omega arith))) e f n
    where
      rest_agrees : owed_events is h ≡ owed_events is g
      rest_agrees = owed_events-agree (i + 1) is g h a e (λ j k. d j (inr (omega arith)))

  pub emit_params-Drained :
      (m : ℕ) (is : List ℕ) (g : GuiState) (o : O.Queue)
      → Ascending m is
      → Drained m is g o (emit_params O is g o)
  unfolding emit_params
  emit_params-Drained m [] g o a = all (sym (append-nil (O.items o))) refl (λ j k. refl) refl refl
  emit_params-Drained m (i ∷ is) g o (l, a) =
      after-Stage m i is g o (emit_param O i g o) (l, a) (emit_param-Stage O i g o)
        (λ h p. emit_params-Drained (i + 1) is h p a)

  abbrev pub Lossless : List ℕ → GuiState → O.Queue → GuiState → O.Queue → Type 0
  Lossless is g o h p =
      ((sent : List HostEvent) × (O.items p ≡ O.items o ++ sent)
        × (sent ++ owed_events is h ≡ owed_events is g))
      × ((owed_events is h ≡ []) ⊎ ((h.backpressure ≡ true) × Refuses O))
      × (h.values ≡ g.values)

  Drained-Lossless :
      (is : List ℕ) (g : GuiState) (o : O.Queue) (r : GuiState × O.Queue × Bool)
      → Drained 0 is g o r
      → Lossless is g o r.0 r.1
  Drained-Lossless is g o _ (all {h = h} b c d e f) =
      ((owed_events is g, b, rw (c, append-nil) refl), inl c, e)
  Drained-Lossless is g o _ (stopped sent b c d e f n) = ((sent, b, c), inr (f, n), e)

  idle-Lossless :
      (is : List ℕ) (g : GuiState) (o : O.Queue) → owed_events is g ≡ [] → Lossless is g o g o
  idle-Lossless is g o e = (([], sym (append-nil (O.items o)), refl), inl e, refl)

  -- `write_gui_events` sends a first part of the events that the flags owe the host, in their order,
  -- and the flags that it leaves owe exactly the rest; it leaves something owed only with the
  -- backpressure flag raised, and only if the host's
  -- queue refuses an event; the parameters' values are untouched.
  pub write_gui_events-Lossless :
      (g : GuiState) (o : O.Queue)
      → let (h, p) = write_gui_events O g o in Lossless param_indices g o h p
  unfolding write_gui_events
  write_gui_events-Lossless g o = elim (Bool-cases (is_zero_word 32 g.gesture_flags)) [
    | inl t ↦
        rw (write_gui_events, t)
          (idle-Lossless param_indices g o
            (nothing_owed param_indices g (is_zero_word-clear 32 g.gesture_flags t) within))
    | inr f ↦
        rw (write_gui_events, f)
          (Drained-Lossless param_indices g o (emit_params O param_indices g o)
            (emit_params-Drained 0 param_indices g o ascending))
  ]
    where
      ascending : Ascending 0 param_indices
      ascending = (
        omega arith,
        (
          omega arith,
          (
            omega arith,
            (omega arith, (omega arith, (omega arith, (omega arith, (omega arith, _))))),
          ),
        ),
      )

      within : All (λ i. i < 9) param_indices
      within = (
        omega arith,
        (
          omega arith,
          (
            omega arith,
            (omega arith, (omega arith, (omega arith, (omega arith, (omega arith, _))))),
          ),
        ),
      )
