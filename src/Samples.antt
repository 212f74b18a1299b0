-- ===== src/Samples.antt =====
-- A concrete engine and a concrete ring, at which the laws of Engine.antt hold: the tests run on them.
use nam_plug.Prelude.{
  ℕ, zero, suc, ◌≤◌, ◌<◌, ◌≡◌, refl, ◌⊎◌, inl, inr, Bool, true, false, Option, none, some, List, [],
  ◌∷◌, ◌++◌, length, ltb, ◌==◌, if◌then◌else◌, Bool-cases, arith,
}
use nam_plug.Float.{F32, u32_as_f32}
use nam_plug.Dsp.{Dsp, Factors}
use nam_plug.Engine.{Engine, RoundTrips, Ring}

-- The enumerations have two values; the resources are numbers.
abbrev pub flag_of : F32 → Bool
flag_of zero = false
flag_of (suc n) = true

abbrev pub flag_as : Bool → ℕ
flag_as false = 0
flag_as true = 1

pub data OversampleFactor : Type 0 where
  off x2 x4 : OversampleFactor

abbrev pub factor_as : OversampleFactor → ℕ
factor_as off = 0
factor_as x2 = 1
factor_as x4 = 2

abbrev pub factor_from : F32 → OversampleFactor
factor_from x = if x == 0 then off else if x == 1065353216 then x2 else x4

abbrev pub eq_factor : OversampleFactor → OversampleFactor → Bool
eq_factor f g = factor_as f == factor_as g

abbrev pub engine : Engine
engine = record {
  StaticModel = ℕ;
  Resampler = ℕ;
  Stream = ℕ;
  OversampleEngine = ℕ;
  CabSimPair = ℕ;
  Adaptive = Bool;
  Slim = Bool;
  Factor = OversampleFactor;
  Precision = Bool;
  default = record {
    input_gain_db = 0;
    output_gain_db = 0;
    gate_threshold_db = 0;
    bypass = false;
    adaptive_compute = false;
    slim_override = false;
    oversample = off;
    activation_precision = false;
  };
  adaptive_from = flag_of;
  adaptive_as = flag_as;
  slim_from = flag_of;
  slim_as = flag_as;
  factor_from = factor_from;
  factor_as = factor_as;
  precision_from = flag_of;
  precision_as = flag_as;
}

flag_round_trip : (b : Bool) → flag_of (u32_as_f32 (flag_as b)) ≡ b
unfolding u32_as_f32
flag_round_trip false = refl
flag_round_trip true = refl

factor_round_trip : (f : OversampleFactor) → factor_from (u32_as_f32 (factor_as f)) ≡ f
unfolding u32_as_f32
factor_round_trip off = refl
factor_round_trip x2 = refl
factor_round_trip x4 = refl

abbrev pub eq_flag : Bool → Bool → Bool
eq_flag a b = flag_as a == flag_as b

-- Latencies are read off the numbers that stand for the resources.
abbrev pub dsp : Dsp engine
dsp = record {
  stream_latency = λ s. s;
  os_latency = λ o. o;
  os_factor = λ o. if o == 0 then off else x2;
  partition_size = λ p. p;
  pair_sample_rate = λ p. 48000;
  num_partitions = λ p. 2;
  channel_latency = λ p. p;
  wavenet_ch = λ m. none;
  db_to_linear = λ x. x;
  add = λ x y. x;
  gain_min_db = 3266576384;
  gain_max_db = 1148846080;
  Controller = ℕ;
  set_mode = λ a c. c;
  set_slim_override = λ s c. c;
  set_wavenet_full_ch = λ ch slim c. ch;
  eq_adaptive = eq_flag;
  eq_slim = eq_flag;
  eq_factor = eq_factor;
  eq_precision = eq_flag;
  off = off;
  x2 = x2;
  x4 = x4;
  factor_to_u32 = factor_as;
}

one_factor : (f : OversampleFactor) → (f ≡ off) ⊎ (f ≡ x2) ⊎ (f ≡ x4)
one_factor off = inl refl
one_factor x2 = inr (inl refl)
one_factor x4 = inr (inr refl)

eq_factor_lem : (f g : OversampleFactor) → eq_factor f g ≡ true → f ≡ g
eq_factor_lem f g h = ground arith

pub dsp-Factors : Factors dsp
dsp-Factors = record {
  one_of = one_factor;
  off_is_0 = refl;
  x2_is_1 = refl;
  x4_is_2 = refl;
  eq_lem = eq_factor_lem;
}

pub engine-RoundTrips : RoundTrips engine
engine-RoundTrips = record {
  adaptive = flag_round_trip;
  slim = flag_round_trip;
  factor = factor_round_trip;
  precision = flag_round_trip;
}

-- A list with a bound.
abbrev pub pop_list {ℓ} : {A : Type ℓ} → List A → Option (A × List A)
pop_list [] = none
pop_list (x ∷ xs) = some (x, xs)

abbrev pub push_list {ℓ} : {A : Type ℓ} → ℕ → List A → A → Option (List A)
push_list n xs x = if ltb (length xs) n then some (xs ++ (x ∷ [])) else none

module _ {A : Type 0} (n : ℕ) where
  pub push_list-cases :
      (q : List A) (a : A)
      → ((push_list n q a ≡ none) × (n ≤ length q))
        ⊎ ((r : List A) × (push_list n q a ≡ some r) × (length q < n) × (r ≡ q ++ (a ∷ [])))
  push_list-cases q a = elim (Bool-cases (ltb (length q) n)) [
    | inl t ↦ inr (q ++ (a ∷ []), rw t refl, ground arith, refl)
    | inr f ↦ inl (rw f refl, ground arith)
  ]

  pub pop_list-cases :
      (q : List A)
      → ((pop_list q ≡ none) × (q ≡ []))
        ⊎ ((a : A) × (r : List A) × (pop_list q ≡ some (a, r)) × (q ≡ a ∷ r))
  pop_list-cases [] = inl (refl, refl)
  pop_list-cases (x ∷ xs) = inr (x, xs, refl, refl)

  abbrev pub list_ring : Ring A
  list_ring = record {
    Queue = List A;
    items = λ q. q;
    capacity = n;
    push = push_list n;
    pop = pop_list;
    push_cases = push_list-cases;
    pop_cases = pop_list-cases;
  }
