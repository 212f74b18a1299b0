-- ===== src/Scheduler/Coalesce.antt =====
-- Coalescing in src/clap/plugin/command_scheduler.rs: the snapshot that is kept on a full ring is
-- the one that is delivered later, and of a burst of snapshots the last survives.
use nam_plug.Prelude.{
  ℕ, zero, suc, ◌<◌, ◌≡◌, ◌≢◌, refl, true, false, none, some, Bool-cases, inl, inr, ◌⊎◌, arith,
}
use nam_plug.Float.{Word, is_zero_word, u32_as_f32}
use nam_plug.Engine.{Engine, Params, RoundTrips}
use nam_plug.Scheduler.{CoalesceBuffer, take_all, take_snapshot, restore_snapshot}

-- A word with a set bit is not zero.
pub is_zero_word-set :
    (width k : ℕ) (w : Word) → k < width → w k ≡ true → is_zero_word width w ≡ false
is_zero_word-set zero k w h e = elim h [ ]
is_zero_word-set (suc width) k w h e = elim (Bool-cases (w width)) [
  | inl t ↦ rw t
  | inr f ↦ rw f (is_zero_word-set width k w (below h (λ p. cc)) e)
]
  where
    below : k < suc width → k ≢ width → k < width
    below a b = omega arith

take_all-clean :
    (E : Engine) (b : CoalesceBuffer) → take_snapshot E (take_all E b).1 ≡ (none, (take_all E b).1)
unfolding take_snapshot take_all
take_all-clean E b = refl

-- `take_snapshot` finds nothing, or takes everything and leaves a clean buffer.
pub take_snapshot-cases :
    (E : Engine) (b : CoalesceBuffer)
    → (take_snapshot E b ≡ (none, b))
      ⊎ ((p : Params E) × (x : CoalesceBuffer) × (take_snapshot E b ≡ (some p, x))
          × (take_snapshot E x ≡ (none, x)))
unfolding take_snapshot
take_snapshot-cases E b = elim (Bool-cases (is_zero_word 16 b.dirty_mask)) [
  | inl t ↦ inl (rw t refl)
  | inr f ↦ inr ((take_all E b).0, (take_all E b).1, rw f refl, take_all-clean E b)
]

module _ (E : Engine) (rt : RoundTrips E) where
  take_all-restore_snapshot :
      (p : Params E) (b : CoalesceBuffer) → (take_all E (restore_snapshot E p b)).0 ≡ p
  unfolding take_all restore_snapshot u32_as_f32
  take_all-restore_snapshot p b = ground (
    arith,
    rt.adaptive p.adaptive_compute,
    rt.slim p.slim_override,
    rt.factor p.oversample,
    rt.precision p.activation_precision,
  )

  pub restore_snapshot-dirty :
      (p : Params E) (b : CoalesceBuffer)
      → is_zero_word 16 (restore_snapshot E p b).dirty_mask ≡ false
  unfolding restore_snapshot
  restore_snapshot-dirty p b =
      is_zero_word-set 16 7 (restore_snapshot E p b).dirty_mask (omega arith) refl

  -- A snapshot put into any buffer is taken out again unchanged.
  pub take_snapshot-restore_snapshot :
      (p : Params E) (b : CoalesceBuffer) → (take_snapshot E (restore_snapshot E p b)).0 ≡ some p
  unfolding take_snapshot
  take_snapshot-restore_snapshot p b =
      rw (restore_snapshot-dirty p b, take_all-restore_snapshot p b) refl
