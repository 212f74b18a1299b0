-- ===== src/State/Restored.antt =====
-- src/clap/extensions/state_transaction.rs: a restore from parameters whose assets have digests.
use nam_plug.Prelude.{
  ℕ, ◌≡◌, refl, ap, ◌∙◌, Bool, true, false, Option, none, some, ◌==◌, max, if◌then◌else◌,
}
use nam_plug.Engine.{Engine, Ring}
use nam_plug.Dsp.{Dsp}
use nam_plug.Payload.{ClapParamPayload}
use nam_plug.Assets.{
  Bytes, Disk, Files, Loader, ProcessingParams, done, ok_or, ok_or-some, ir_hash_missing,
  ir_hash_malformed, ir_not_found, ir_hash_failed, ir_hash_mismatch, ir_load_failed,
  clear_model_resampler_failed, clear_model_stream_failed,
}
use nam_plug.Assets.Digest.{
  is_valid_sha256_hex, read_ir_file_bytes, compute_bytes_hash, eq_ignore_ascii_case,
}
use nam_plug.Assets.Validate.{
  RestoreMode, full_mode, for_preset, ModelResources, ValidatedRestore, partition_of,
  build_ir_resources_from_bytes, validate_ir_at, ir_from, validate_ir, validate_and_build,
}
use nam_plug.Commit.{Models, MainThread}
use nam_plug.Commit.Package.{clear_component, model_component, build_restore_package}
use nam_plug.Commit.Publish.{local_commit}
use nam_plug.Commit.Deliver.{host_rate_of, atomic_commit, commit}
use nam_plug.State.{Json}
use nam_plug.State.Load.{restore_params}
use nam_plug.State.Accepting.{
  Accepting, >>=-Accepting, done-Accepting, ok_or-Accepting, ensure-Accepting, or_error-Accepting,
  ok_or-met, ensure-met, Identity, validate_model-Accepting,
}

module _ {E : Engine} {K : Disk} (L : Loader E K) where
  build_ir_resources_from_bytes-Accepting :
      (bytes : Bytes) (r b : ℕ) → Accepting (build_ir_resources_from_bytes L bytes r b)
  unfolding build_ir_resources_from_bytes
  build_ir_resources_from_bytes-Accepting bytes r b =
      >>=-Accepting _ _ (ok_or-Accepting (L.load_cabsim bytes r) ir_load_failed refl) (λ c h0.
        >>=-Accepting _ _
          (ok_or-Accepting (L.build_pair c.samples c.sample_rate (partition_of L b)) ir_load_failed
            refl)
          (λ pair h1. done-Accepting _))

  ir_from-Accepting :
      (F : Files K) (p : ProcessingParams E K) (r b : ℕ) (o : Option K.FilePath)
      → Identity p
      → p.ir_path ≡ o
      → Accepting (ir_from L F p r b o)
  unfolding validate_ir_at
  ir_from-Accepting F p r b none i q = done-Accepting _
  ir_from-Accepting F p r b (some path) i q =
      let (hash, k, w) = i.by_ir_path path q in
      >>=-Accepting _ _ (ensure-Accepting (F.exists path) ir_not_found refl) (λ u h0.
        >>=-Accepting _ _ (ok_or-met p.ir_hash hash ir_hash_missing k) (λ expected h1.
          >>=-Accepting _ _
            (ensure-met (is_valid_sha256_hex expected) ir_hash_malformed
              (ap is_valid_sha256_hex (found expected hash h1 k) ∙ w))
            (λ u h2.
              >>=-Accepting _ _
                (or_error-Accepting (read_ir_file_bytes K F path) ir_hash_failed refl)
                (λ bytes h3.
                  >>=-Accepting _ _
                    (ensure-Accepting (eq_ignore_ascii_case (compute_bytes_hash K bytes) expected)
                      ir_hash_mismatch refl)
                    (λ u h4.
                      >>=-Accepting _ _ (build_ir_resources_from_bytes-Accepting bytes r b)
                        (λ res h5. done-Accepting _))))))
    where
      found : (x y : Bytes) → ok_or p.ir_hash ir_hash_missing ≡ done x → p.ir_hash ≡ some y → x ≡ y
      found x y h k = cc (ok_or-some p.ir_hash ir_hash_missing x h, k)

  validate_and_build-Accepting :
      (mode : RestoreMode) (seen before after : Files K) (p : ProcessingParams E K) (r b : ℕ)
      → Identity p
      → Accepting (validate_and_build L mode seen before after p r b)
  unfolding validate_and_build validate_ir
  validate_and_build-Accepting mode seen before after p r b i =
      >>=-Accepting _ _ (validate_model-Accepting L mode seen before after p r b i) (λ m h0.
        >>=-Accepting _ _ (ir_from-Accepting after p r b p.ir_path i refl)
          (λ x h1. done-Accepting _))

module _ {E : Engine} {K : Disk} (J : Json E K) (L : Loader E K) (M : Models E K) (D : Dsp E)
    (R : Ring (ClapParamPayload E)) where
  model_component-Accepting :
      (mode : RestoreMode) (r b : ℕ) (o : Option (ModelResources L)) (g : ℕ)
      → Accepting (model_component L M mode r b o g)
  unfolding model_component clear_component
  model_component-Accepting mode r b (some m) g = done-Accepting _
  model_component-Accepting for_preset r b none g = done-Accepting _
  model_component-Accepting full_mode r b none g =
      >>=-Accepting _ _
        (>>=-Accepting _ _
          (ok_or-Accepting (L.new_simple r 48000) clear_model_resampler_failed refl)
          (λ x h0.
            >>=-Accepting _ _
              (ok_or-Accepting (L.new_stream r 48000 (max b 1)) clear_model_stream_failed refl)
              (λ y h1. done-Accepting _)))
        (λ c h. done-Accepting _)

  commit-Accepting :
      (v : ValidatedRestore L) (mode : RestoreMode) (s : MainThread L R)
      → Accepting (commit L M D R v mode s)
  unfolding commit atomic_commit build_restore_package
  commit-Accepting v mode s = by_test (s.buffer_size == 0)
    where
      by_test :
          (t : Bool)
          → Accepting
              (if t then done (local_commit L M D R v mode s) else atomic_commit L M D R v mode s)
      by_test true = done-Accepting _
      by_test false =
          >>=-Accepting _ _
            (>>=-Accepting _ _
              (model_component-Accepting mode (host_rate_of L M D R s.sample_rate) s.buffer_size
                v.model s.model_generation)
              (λ c h. done-Accepting _))
            (λ c h. done-Accepting _)

  pub restore_params-Accepting :
      (mode : RestoreMode) (seen before after : Files K) (p : ProcessingParams E K)
      (s : MainThread L R)
      → Identity p
      → Accepting (restore_params J L M D R mode seen before after p s)
  unfolding restore_params
  restore_params-Accepting mode seen before after p s i =
      >>=-Accepting _ _
        (validate_and_build-Accepting L mode seen before after p
          (host_rate_of L M D R s.sample_rate) s.buffer_size i)
        (λ v h. commit-Accepting v mode s)
