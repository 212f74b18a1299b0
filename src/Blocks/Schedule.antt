-- ===== src/Blocks/Schedule.antt =====
-- src/clap/processor/dsp/orchestrator.rs: `schedule_input_events`.
use nam_plug.Prelude.{
  ℕ, ◌+◌, ◌≤◌, ◌≡◌, refl, Bool, true, false, Bool-cases, ◌&&◌, inl, inr, Option, none, some, List,
  [], ◌∷◌, ◌++◌, length, leb, if◌then◌else◌, arith,
}
use nam_plug.Float.{F32}
use nam_plug.Blocks.{ScheduledEvent}
use nam_plug.Blocks.Cut.{max_scheduled_events}
use nam_plug.Blocks.Progress.{Sorted}

-- An event of the host: its parameter's id may be the reserved one.
pub data InputEvent : Type 0 where
  param_value : (time : ℕ) → (param_id : Option ℕ) → (value : F32) → InputEvent
  param_mod : (time : ℕ) → (param_id : Option ℕ) → (amount : F32) → InputEvent
  unknown : InputEvent

pub record Schedule : Type 0 where
  pub events : List ScheduledEvent
  pub last_time : ℕ
  pub sorted : Bool
  pub truncated : Bool

-- No event is later.
abbrev pub UpTo : ℕ → List ScheduledEvent → Type 0
UpTo t [] = Unit
UpTo t (e ∷ es) = (e.time ≤ t) × UpTo t es

abbrev pub empty_schedule : Schedule
empty_schedule = record { events = []; last_time = 0; sorted = true; truncated = false }

abbrev pub pushed : ℕ → ℕ → F32 → Bool → Schedule → Schedule
pushed t id value is_mod s = record s {
  events = s.events ++ (record { time = t; param_id = id; value = value; is_mod = is_mod } ∷ []);
  last_time = t;
  sorted = s.sorted && leb s.last_time t;
}

abbrev pub parse_event : InputEvent → Schedule → Schedule
parse_event (param_value t (some id) value) s = pushed t id value false s
parse_event (param_value t none value) s = s
parse_event (param_mod t (some id) amount) s = pushed t id amount true s
parse_event (param_mod t none amount) s = s
parse_event unknown s = s

abbrev pub parse_events : List InputEvent → Schedule → Schedule
parse_events [] s = s
parse_events (e ∷ es) s =
    let rest = parse_events es (parse_event e s) in
    if leb max_scheduled_events (length s.events) then record s { truncated = true } else rest

unfoldable pub schedule_input_events : List InputEvent → Schedule
schedule_input_events input = parse_events input empty_schedule

-- What the flag says of the events and of the last time.
abbrev pub InOrder : Schedule → Type 0
InOrder s = (s.sorted ≡ true) → Sorted s.events × UpTo s.last_time s.events

UpTo-later : (t u : ℕ) (es : List ScheduledEvent) → t ≤ u → UpTo t es → UpTo u es
UpTo-later t u [] h k = tt
UpTo-later t u (e ∷ es) h (x, y) = (omega (arith, h, x), UpTo-later t u es h y)

Sorted-snoc :
    (es : List ScheduledEvent) (e : ScheduledEvent)
    → Sorted es
    → UpTo e.time es
    → Sorted (es ++ (e ∷ [])) × UpTo e.time (es ++ (e ∷ []))
Sorted-snoc [] e h k = (tt, (omega arith, tt))
Sorted-snoc (f ∷ []) e h (x, y) = ((x, tt), (x, (omega arith, tt)))
Sorted-snoc (f ∷ g ∷ es) e (h, k) (x, y) =
    let (a, b) = Sorted-snoc (g ∷ es) e k y in ((h, a), (x, b))

pushed-InOrder :
    (t id : ℕ) (value : F32) (is_mod : Bool) (s : Schedule)
    → InOrder s
    → InOrder (pushed t id value is_mod s)
pushed-InOrder t id value is_mod s h k =
    let (a, b) = both s.sorted (leb s.last_time t) k in
    let (x, y) = h a in
    Sorted-snoc s.events (record { time = t; param_id = id; value = value; is_mod = is_mod }) x
      (UpTo-later s.last_time t s.events (ground (arith, b)) y)
  where
    both : (a b : Bool) → (a && b) ≡ true → (a ≡ true) × (b ≡ true)
    both true true q = (refl, refl)
    both true false q = cc q
    both false b q = cc q

length-pushed :
    (t id : ℕ) (value : F32) (is_mod : Bool) (s : Schedule)
    → length (pushed t id value is_mod s).events ≡ length s.events + 1
length-pushed t id value is_mod s = snoc s.events
  where
    snoc :
        (es : List ScheduledEvent)
        → length (es ++ (record { time = t; param_id = id; value = value; is_mod = is_mod } ∷ []))
          ≡ length es + 1
    snoc [] = omega arith
    snoc (e ∷ es) = omega (arith, snoc es)

parse_event-InOrder : (e : InputEvent) (s : Schedule) → InOrder s → InOrder (parse_event e s)
parse_event-InOrder (param_value t (some id) v) s h = pushed-InOrder t id v false s h
parse_event-InOrder (param_value t none v) s h = h
parse_event-InOrder (param_mod t (some id) v) s h = pushed-InOrder t id v true s h
parse_event-InOrder (param_mod t none v) s h = h
parse_event-InOrder unknown s h = h

length-parse_event :
    (e : InputEvent) (s : Schedule) → length (parse_event e s).events ≤ length s.events + 1
length-parse_event (param_value t (some id) v) s = omega (arith, length-pushed t id v false s)
length-parse_event (param_value t none v) s = omega arith
length-parse_event (param_mod t (some id) v) s = omega (arith, length-pushed t id v true s)
length-parse_event (param_mod t none v) s = omega arith
length-parse_event unknown s = omega arith

parse_events-InOrder :
    (es : List InputEvent) (s : Schedule)
    → InOrder s
    → length s.events ≤ max_scheduled_events
    → InOrder (parse_events es s) × (length (parse_events es s).events ≤ max_scheduled_events)
parse_events-InOrder [] s h l = (h, l)
parse_events-InOrder (e ∷ es) s h l =
    elim (Bool-cases (leb max_scheduled_events (length s.events))) [
      | inl t ↦ rw t (h, l)
      | inr f ↦ rw f (
          parse_events-InOrder es (parse_event e s) (parse_event-InOrder e s h)
            (ground (arith, f, length-parse_event e s)))
    ]

-- The schedule of a callback holds at most 4096 events, and if its flag says that they are in order of
-- time, they are.
pub schedule_input_events-InOrder :
    (input : List InputEvent)
    → let s = schedule_input_events input in
      (s.sorted ≡ true → Sorted s.events) × (length s.events ≤ max_scheduled_events)
unfolding schedule_input_events
schedule_input_events-InOrder input =
    let (a, b) = parse_events-InOrder input empty_schedule (λ h. (tt, tt)) (omega arith) in
    (λ h. (a h).0, b)
