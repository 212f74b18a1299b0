-- ===== src/Assets/Accepted.antt =====
-- src/clap/extensions/state_transaction/validate.rs: what `validate_and_build` accepts.
use nam_plug.Prelude.{
  ℕ, ◌≡◌, refl, sym, ap, ◌∙◌, inl, Bool, true, false, ◌&&◌, Option, none, some, if◌then◌else◌,
  arith,
}
use nam_plug.Engine.{Engine}
use nam_plug.Assets.{
  Bytes, Disk, Files, Loader, ProcessingParams, Result, done, failure, ok_or, ensure, >>=-inv,
  ensure-true, ok_or-some, model_not_found_or_invalid, ir_not_found, ir_hash_missing,
  ir_hash_malformed, ir_hash_failed, ir_hash_mismatch,
}
use nam_plug.Assets.Digest.{
  compute_file_hash, compute_bytes_hash, read_ir_file_bytes, is_valid_sha256_hex,
  eq_ignore_ascii_case,
}
use nam_plug.Assets.Validate.{
  RestoreMode, full_mode, for_preset, or_error, hash_matches, ModelResources, IrResources,
  FoundModel, FoundIr, ValidatedRestore, adopt, validate_model_from_basename, saved_hash_valid,
  has_basename, from_path, validate_model_full, build_ir_resources_from_bytes, validate_ir_at,
  ir_from, validate_ir, validate_model, validate_and_build, validated,
}
use nam_plug.Assets.Verified.{
  or_error-done, ModelEvidence, ModelVerified, adopt-lem, validate_model_from_basename-Verified,
}

module _ {E : Engine} {K : Disk} (L : Loader E K) where
  saved_hash_valid-some :
      (F : Files K) (o : Option Bytes) (path : K.FilePath)
      → saved_hash_valid L F o path ≡ true
      → (expected : Bytes) × (o ≡ some expected)
        × (is_valid_sha256_hex expected ≡ true)
        × (hash_matches (compute_file_hash K F path) expected ≡ true)
  saved_hash_valid-some F none path h = cc h
  saved_hash_valid-some F (some x) path h = (x, refl, ground (arith, h), ground (arith, h))

  from_path-Verified :
      (seen before after : Files K) (p : ProcessingParams E K) (r b : ℕ) (o : Option K.FilePath)
      (v : FoundModel L)
      → p.model_path ≡ o
      → from_path L seen before after p r b o ≡ done v
      → ModelVerified L seen before p v
  from_path-Verified seen before after p r b none v e h =
      validate_model_from_basename-Verified L seen before after p r b v h
  from_path-Verified seen before after p r b (some path) v e h =
      by_test (seen.exists path && saved_hash_valid L seen p.model_hash path) refl h
    where
      by_fallback :
          (t : Bool)
          → (if t
              then validate_model_from_basename L seen before after p r b
              else failure model_not_found_or_invalid)
            ≡ done v
          → ModelVerified L seen before p v
      by_fallback true k = validate_model_from_basename-Verified L seen before after p r b v k
      by_fallback false k = cc k

      by_test :
          (t : Bool)
          → (seen.exists path && saved_hash_valid L seen p.model_hash path) ≡ t
          → (if t
              then adopt L before after r b path
              else if has_basename L p.model_basename
              then validate_model_from_basename L seen before after p r b
              else failure model_not_found_or_invalid)
            ≡ done v
          → ModelVerified L seen before p v
      by_test false q k = by_fallback (has_basename L p.model_basename) k
      by_test true q k = λ m i.
          let (expected, a, w, c) =
            saved_hash_valid-some seen p.model_hash path (ground (arith, q)) in
          let (n, x, y, z, u) = adopt-lem L before after r b path v k in
          let j : n ≡ m = cc (x, i) in
          record {
            expected = expected;
            saved = a;
            well_formed = w;
            path = path;
            adopted = y;
            matched = c;
            built_hash = u ∙ ap (λ s. done s.model_hash) j;
            kept_hash = z ∙ ap (λ s. some s.model_hash) j;
            source = inl e;
          }

  validate_model-Verified :
      (mode : RestoreMode) (seen before after : Files K) (p : ProcessingParams E K) (r b : ℕ)
      (v : FoundModel L)
      → validate_model L mode seen before after p r b ≡ done v
      → ModelVerified L seen before p v
  unfolding validate_model_full
  validate_model-Verified full_mode seen before after p r b v h =
      from_path-Verified seen before after p r b p.model_path v refl h
  validate_model-Verified for_preset seen before after p r b v h =
      validate_model_from_basename-Verified L seen before after p r b v h

  -- The evidence for an impulse response: its bytes were read once, verified, and built.
  pub record IrEvidence (F : Files K) (p : ProcessingParams E K) (r b : ℕ) (hash : Option Bytes)
      (i : IrResources L) : Type 0 where
    pub path : K.FilePath
    pub named : p.ir_path ≡ some path
    pub expected : Bytes
    pub saved : p.ir_hash ≡ some expected
    pub well_formed : is_valid_sha256_hex expected ≡ true
    pub bytes : Bytes
    pub read : read_ir_file_bytes K F path ≡ done bytes
    pub matched : eq_ignore_ascii_case (compute_bytes_hash K bytes) expected ≡ true
    pub built : build_ir_resources_from_bytes L bytes r b ≡ done i
    pub kept_hash : hash ≡ some (compute_bytes_hash K bytes)

  ir_from-Verified :
      (F : Files K) (p : ProcessingParams E K) (r b : ℕ) (o : Option K.FilePath) (v : FoundIr L)
      → p.ir_path ≡ o
      → ir_from L F p r b o ≡ done v
      → (i : IrResources L) → v.ir ≡ some i
      → IrEvidence F p r b v.hash i
  unfolding validate_ir_at
  ir_from-Verified F p r b none v e h i k = let q : none ≡ some i = ap ir_of h ∙ k in cc q
    where
      ir_of : Result (FoundIr L) → Option (IrResources L)
      ir_of (done x) = x.ir
      ir_of (failure e) = none
  ir_from-Verified F p r b (some path) v e h i k =
      let (u1, a1, h1) = >>=-inv (ensure (F.exists path) ir_not_found) _ v h in
      let (expected, a2, h2) = >>=-inv (ok_or p.ir_hash ir_hash_missing) _ v h1 in
      let (u3, a3, h3) = >>=-inv (ensure (is_valid_sha256_hex expected) ir_hash_malformed) _ v h2 in
      let (bytes, a4, h4) =
        >>=-inv (or_error ir_hash_failed (read_ir_file_bytes K F path)) _ v h3 in
      let (u5, a5, h5) =
        >>=-inv
          (ensure (eq_ignore_ascii_case (compute_bytes_hash K bytes) expected) ir_hash_mismatch) _ v
          h4 in
      let (j, a6, h6) = >>=-inv (build_ir_resources_from_bytes L bytes r b) _ v h5 in
      let q : some j ≡ v.ir = ap ir_of h6 in
      let z : j ≡ i = cc (q, k) in
      record {
        path = path;
        named = e;
        expected = expected;
        saved = ok_or-some p.ir_hash ir_hash_missing expected a2;
        well_formed = ensure-true (is_valid_sha256_hex expected) ir_hash_malformed u3 a3;
        bytes = bytes;
        read = or_error-done ir_hash_failed (read_ir_file_bytes K F path) bytes a4;
        matched =
            ensure-true (eq_ignore_ascii_case (compute_bytes_hash K bytes) expected)
              ir_hash_mismatch u5 a5;
        built = a6 ∙ ap done z;
        kept_hash = sym (ap hash_of h6);
      }
    where
      ir_of : Result (FoundIr L) → Option (IrResources L)
      ir_of (done x) = x.ir
      ir_of (failure e) = none

      hash_of : Result (FoundIr L) → Option Bytes
      hash_of (done x) = x.hash
      hash_of (failure e) = none

  -- What is found of a model in a restore that was validated.
  abbrev pub found_in : ValidatedRestore L → FoundModel L
  found_in v = record {
    model = v.model;
    path_on_disk = v.model_path_on_disk;
    basename = v.model_basename;
    search_path = v.model_search_path_to_add;
    hash = v.model_hash;
  }

  -- A validated restore has the saved parameters. A model in it has a well-formed saved hash, which its
  -- file had (letter case aside) when it was verified; the hash that it carries on is the one its file
  -- had when it was built; and the file is the one at the saved path, or one that a plain name found
  -- in a search directory, canonical and inside that directory. An impulse response in it was built
  -- from bytes that have the saved hash, and carries their hash on.
  pub validate_and_build-Verified :
      (mode : RestoreMode) (seen before after : Files K) (p : ProcessingParams E K) (r b : ℕ)
      (v : ValidatedRestore L)
      → validate_and_build L mode seen before after p r b ≡ done v
      → (v.params ≡ p)
        × ((m : ModelResources L) → v.model ≡ some m → ModelEvidence L seen before p (found_in v) m)
        × ((i : IrResources L) → v.ir ≡ some i → IrEvidence after p r b v.ir_hash i)
  unfolding validate_and_build validate_ir
  validate_and_build-Verified mode seen before after p r b v h =
      let (f, a1, h1) = >>=-inv (validate_model L mode seen before after p r b) _ v h in
      let (g, a2, h2) = >>=-inv (validate_ir L after p r b) _ v h1 in
      let k : validated L p f g ≡ v = cc h2 in
      rw (← k) (
        refl,
        λ m i. validate_model-Verified mode seen before after p r b f a1 m i,
        λ i q. ir_from-Verified after p r b p.ir_path g refl a2 i q,
      )
