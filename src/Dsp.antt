-- ===== src/Dsp.antt =====
-- The operations of the engine crate on the resources of Engine.antt, as far as the audio thread's
-- handlers call them.
use nam_plug.Prelude.{ℕ, ◌≡◌, ◌⊎◌, Bool, true, Option}
use nam_plug.Float.{F32}
use nam_plug.Engine.{Engine}

pub record Dsp (E : Engine) : Type 1 where
  -- `latency_samples` of a stream, an oversampler and one channel of a cab-sim pair, `factor`,
  -- `partition_size`, `sample_rate` and `num_partitions`.
  pub stream_latency : E.Stream → ℕ
  pub os_latency : E.OversampleEngine → ℕ
  pub os_factor : E.OversampleEngine → E.Factor
  pub partition_size : E.CabSimPair → ℕ
  pub pair_sample_rate : E.CabSimPair → ℕ
  pub num_partitions : E.CabSimPair → ℕ
  pub channel_latency : E.CabSimPair → ℕ
  -- The channels of a `WavenetDyn` model, and whether it can be slimmed.
  pub wavenet_ch : E.StaticModel → Option (ℕ × Bool)
  -- `GainLUT::db_to_linear`, and the addition of two `f32`.
  pub db_to_linear : F32 → F32
  pub add : F32 → F32 → F32
  pub gain_min_db : F32
  pub gain_max_db : F32
  -- The adaptive compute controller.
  pub Controller : Type 0
  pub set_mode : E.Adaptive → Controller → Controller
  pub set_slim_override : E.Slim → Controller → Controller
  pub set_wavenet_full_ch : ℕ → Bool → Controller → Controller
  -- `PartialEq` of the enumerations.
  pub eq_adaptive : E.Adaptive → E.Adaptive → Bool
  pub eq_slim : E.Slim → E.Slim → Bool
  pub eq_factor : E.Factor → E.Factor → Bool
  pub eq_precision : E.Precision → E.Precision → Bool
  -- `OversampleFactor`: its three values, and `to_f32() as u32`.
  pub off : E.Factor
  pub x2 : E.Factor
  pub x4 : E.Factor
  pub factor_to_u32 : E.Factor → ℕ

-- `OversampleFactor` has no other values, and they count from 0.
pub record Factors {E : Engine} (D : Dsp E) : Type 0 where
  pub one_of : (f : E.Factor) → (f ≡ D.off) ⊎ (f ≡ D.x2) ⊎ (f ≡ D.x4)
  pub off_is_0 : D.factor_to_u32 D.off ≡ 0
  pub x2_is_1 : D.factor_to_u32 D.x2 ≡ 1
  pub x4_is_2 : D.factor_to_u32 D.x4 ≡ 2
  pub eq_lem : (f g : E.Factor) → D.eq_factor f g ≡ true → f ≡ g
