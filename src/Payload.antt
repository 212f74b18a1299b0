-- ===== src/Payload.antt =====
-- The command family of src/clap/plugin/shared.rs: `ClapParamPayload`, its classification, and the
-- records that travel with it. Boxes and the moves of Rust's ownership leave no trace here.
use nam_plug.Prelude.{ℕ, Bool, true, false, Option, none, some}
use nam_plug.Float.{F32}
use nam_plug.Engine.{Engine, Params}

pub record LoadModelPayload (E : Engine) : Type 0 where
  pub generation : ℕ
  pub model_l : Option E.StaticModel
  pub model_r : Option E.StaticModel
  pub new_resampler : E.Resampler
  pub new_stream : E.Stream
  pub model_rate : ℕ
  pub input_mult_adj : F32
  pub output_mult_adj : F32
  pub prewarm_cost_ns : Option F32

pub record RestoreTxn (E : Engine) : Type 0 where
  pub generation : ℕ
  pub model : Option (LoadModelPayload E)
  pub ir : Option (Option E.CabSimPair)
  pub params : Params E

pub data ClapParamPayload (E : Engine) : Type 0 where
  params : Params E → ClapParamPayload E
  load_model : LoadModelPayload E → ClapParamPayload E
  load_cab_ir : Option E.CabSimPair → ClapParamPayload E
  set_oversample : E.OversampleEngine → E.OversampleEngine → ClapParamPayload E
  restore_txn : RestoreTxn E → ClapParamPayload E

pub data StructuralKind : Type 0 where
  model cab_ir oversample restore : StructuralKind

unfoldable pub is_coalescible : StructuralKind → Bool
is_coalescible restore = false
is_coalescible _ = true

module _ {E : Engine} where
  unfoldable pub structural_kind : ClapParamPayload E → Option StructuralKind
  structural_kind (params p) = none
  structural_kind (load_model m) = some model
  structural_kind (load_cab_ir i) = some cab_ir
  structural_kind (set_oversample l r) = some oversample
  structural_kind (restore_txn t) = some restore

  unfoldable pub is_structural : ClapParamPayload E → Bool
  is_structural (params p) = false
  is_structural _ = true
