-- ===== src/DryDelay.antt =====
-- src/clap/processor/dsp/dry_delay.rs: the delay of the dry signal, which keeps it aligned with the wet one.
pub mod Flips
mod Tests
use nam_plug.Prelude.{ℕ, ◌≡◌, min, Bool, true, false, List, [], ◌∷◌, length, take}
use nam_plug.Float.{F32}

-- `DelayLine<f32>` of the engine: one bounded ring with its delay.
pub record DelayLine : Type 1 where
  pub Line : Type 0
  pub with_capacity : ℕ → ℕ → Line
  pub set_delay : ℕ → Line → Line
  pub reset : Line → Line
  pub process_block : List F32 → Line → Line × List F32
  pub copy_state_from : Line → Line → Line

-- A line that takes another's state is as that one, the two being of one capacity.
pub record Copies (L : DelayLine) : Type 0 where
  pub copied : (dst src : L.Line) → L.copy_state_from dst src ≡ src

-- `copy_from_slice` and the writes of a line reach the first `n` samples of an output.
abbrev pub overwrite : List F32 → List F32 → List F32
overwrite [] out = out
overwrite (x ∷ xs) [] = []
overwrite (x ∷ xs) (y ∷ ys) = x ∷ overwrite xs ys

module _ (L : DelayLine) where
  pub record DryDelayLine : Type 0 where
    pub line_l : L.Line
    pub line_r : L.Line
    pub last_mono : Bool

  pub record Block : Type 0 where
    pub in_l : List F32
    pub in_r : List F32
    pub out_l : List F32
    pub out_r : List F32
    pub n : ℕ
    pub process_mono : Bool

  unfoldable pub new : ℕ → ℕ → DryDelayLine
  new capacity delay = record {
    line_l = L.with_capacity capacity delay;
    line_r = L.with_capacity capacity delay;
    last_mono = false;
  }

  unfoldable pub set_delay : ℕ → DryDelayLine → DryDelayLine
  set_delay delay d = record d {
    line_l = L.set_delay delay d.line_l;
    line_r = L.set_delay delay d.line_r;
  }

  unfoldable pub reset : DryDelayLine → DryDelayLine
  reset d = record d { line_l = L.reset d.line_l; line_r = L.reset d.line_r }

  abbrev pub mirror_l_history_into_r : DryDelayLine → DryDelayLine
  mirror_l_history_into_r d = record d { line_r = L.copy_state_from d.line_r d.line_l }

  abbrev pub mirror_if : Bool → DryDelayLine → DryDelayLine
  mirror_if true d = mirror_l_history_into_r d
  mirror_if false d = d

  -- The shortest slice.
  abbrev pub clamped : Block → ℕ
  clamped b =
      min (min (min (min b.n (length b.in_l)) (length b.in_r)) (length b.out_l)) (length b.out_r)

  -- With the two outputs.
  abbrev pub mono_block : ℕ → Block → DryDelayLine → DryDelayLine × List F32 × List F32
  mono_block n b d =
      let (l, out) = L.process_block (take n b.in_l) d.line_l in
      (
        record { line_l = l; line_r = d.line_r; last_mono = true },
        overwrite out b.out_l,
        overwrite out b.out_r,
      )

  abbrev pub dual_block : ℕ → Block → DryDelayLine → DryDelayLine × List F32 × List F32
  dual_block n b d =
      let (l, out_l) = L.process_block (take n b.in_l) d.line_l in
      let (r, out_r) = L.process_block (take n b.in_r) d.line_r in
      (
        record { line_l = l; line_r = r; last_mono = false },
        overwrite out_l b.out_l,
        overwrite out_r b.out_r,
      )

  abbrev pub block_if : Bool → ℕ → Block → DryDelayLine → DryDelayLine × List F32 × List F32
  block_if true n b d = mono_block n b d
  block_if false n b d = dual_block n b (mirror_if d.last_mono d)

  unfoldable pub process_block : Block → DryDelayLine → DryDelayLine × List F32 × List F32
  process_block b d = block_if b.process_mono (clamped b) b d
