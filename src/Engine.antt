-- ===== src/Engine.antt =====
-- What the plugin takes from outside its sources: the types of the engine crate
-- (neural_amp_modeler_rs) with the conversions that the plugin calls, and the SPSC ring (rtrb).
-- The laws state the documented behaviour that the proofs rely on.
use nam_plug.Prelude.{ℕ, ◌≤◌, ◌<◌, ◌≡◌, ◌⊎◌, Bool, Option, none, some, List, [], ◌∷◌, ◌++◌, length}
use nam_plug.Float.{F32, u32_as_f32}

-- `RtProcessingParams`: the fields that the plugin reads and writes.
pub record RtParams (Adaptive Slim Factor Precision : Type 0) : Type 0 where
  pub input_gain_db : F32
  pub output_gain_db : F32
  pub gate_threshold_db : F32
  pub bypass : Bool
  pub adaptive_compute : Adaptive
  pub slim_override : Slim
  pub oversample : Factor
  pub activation_precision : Precision

pub record Engine : Type 1 where
  pub StaticModel : Type 0
  pub Resampler : Type 0
  pub Stream : Type 0
  pub OversampleEngine : Type 0
  pub CabSimPair : Type 0
  pub Adaptive : Type 0
  pub Slim : Type 0
  pub Factor : Type 0
  pub Precision : Type 0
  pub default : RtParams Adaptive Slim Factor Precision
  -- `from_f32`, and the cast `as u32` of the enumeration.
  pub adaptive_from : F32 → Adaptive
  pub adaptive_as : Adaptive → ℕ
  pub slim_from : F32 → Slim
  pub slim_as : Slim → ℕ
  pub factor_from : F32 → Factor
  pub factor_as : Factor → ℕ
  pub precision_from : F32 → Precision
  pub precision_as : Precision → ℕ

abbrev pub Params : Engine → Type 0
Params E = RtParams E.Adaptive E.Slim E.Factor E.Precision

-- The cast to a number and `from_f32` are inverse on the values of each enumeration.
pub record RoundTrips (E : Engine) : Type 0 where
  pub adaptive : (a : E.Adaptive) → E.adaptive_from (u32_as_f32 (E.adaptive_as a)) ≡ a
  pub slim : (s : E.Slim) → E.slim_from (u32_as_f32 (E.slim_as s)) ≡ s
  pub factor : (f : E.Factor) → E.factor_from (u32_as_f32 (E.factor_as f)) ≡ f
  pub precision : (p : E.Precision) → E.precision_from (u32_as_f32 (E.precision_as p)) ≡ p

-- A bounded FIFO ring with one producer and one consumer; `items` is what is queued, oldest first.
pub record Ring (A : Type 0) : Type 1 where
  pub Queue : Type 0
  pub items : Queue → List A
  pub capacity : ℕ
  -- `none` is `PushError::Full`, which hands the value back.
  pub push : Queue → A → Option Queue
  pub pop : Queue → Option (A × Queue)
  pub push_cases :
      (q : Queue) (a : A)
      → ((push q a ≡ none) × (capacity ≤ length (items q)))
        ⊎ ((r : Queue) × (push q a ≡ some r)
            × (length (items q) < capacity)
            × (items r ≡ items q ++ (a ∷ [])))
  pub pop_cases :
      (q : Queue)
      → ((pop q ≡ none) × (items q ≡ []))
        ⊎ ((a : A) × (r : Queue) × (pop q ≡ some (a, r)) × (items q ≡ a ∷ items r))

-- The host's output event queue, which may refuse an event at any time.
pub record Output (A : Type 0) : Type 1 where
  pub Queue : Type 0
  pub items : Queue → List A
  pub try_push : Queue → A → Option Queue
  pub try_push_cases :
      (q : Queue) (a : A)
      → (try_push q a ≡ none)
        ⊎ ((r : Queue) × (try_push q a ≡ some r) × (items r ≡ items q ++ (a ∷ [])))
