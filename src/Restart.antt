-- ===== src/Restart.antt =====
-- `PendingRestartOs` of src/clap/plugin/shared.rs: the pending oversampling restart, as one `u32`.
mod Tests
use nam_plug.Prelude.{ℕ, zero, suc, ◌+◌, ◌≡◌, refl, ap, inl, inr, ◌∙◌}
use nam_plug.Engine.{Engine}
use nam_plug.Dsp.{Dsp, Factors}

pub data PendingRestartOs (E : Engine) : Type 0 where
  no_restart : PendingRestartOs E
  pending : E.Factor → PendingRestartOs E

module _ {E : Engine} (D : Dsp E) where
  unfoldable pub encode : PendingRestartOs E → ℕ
  encode no_restart = 0
  encode (pending f) = D.factor_to_u32 f + 1

  -- An invalid encoding counts as `None` (in a debug build it panics).
  unfoldable pub decode : ℕ → PendingRestartOs E
  decode zero = no_restart
  decode (suc zero) = pending D.off
  decode (suc (suc zero)) = pending D.x2
  decode (suc (suc (suc zero))) = pending D.x4
  decode (suc (suc (suc (suc _)))) = no_restart

  -- `take`: the state that stood in the atomic, and what it leaves.
  unfoldable pub take : ℕ → PendingRestartOs E × ℕ
  unfolding decode
  take raw = (decode raw, 0)

  -- What was stored is what is read, and it is taken once: a pending change to `Off` is not lost.
  pub decode-encode :
      (fs : Factors D) (p : PendingRestartOs E)
      → (decode (encode p) ≡ p)
        × (take (encode p) ≡ (p, encode no_restart))
        × (decode (take (encode p)).1 ≡ no_restart)
  unfolding encode decode take
  decode-encode fs no_restart = (refl, refl, refl)
  decode-encode fs (pending f) = let e = read f in (e, ap (λ p. (p, 0)) e, refl)
    where
      read : (f : E.Factor) → decode (encode (pending f)) ≡ pending f
      read f = elim (fs.one_of f) [
        | inl e ↦ rw (e, fs.off_is_0) refl
        | inr (inl e) ↦ rw (e, fs.x2_is_1) refl
        | inr (inr e) ↦ rw (e, fs.x4_is_2) refl
      ]
