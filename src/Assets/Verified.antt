-- ===== src/Assets/Verified.antt =====
-- src/clap/extensions/state_transaction/validate.rs: no asset reaches a commit unverified.
use mathlib.Core.List.{Memᴰ}
use nam_plug.Prelude.{
  ℕ, ◌≡◌, refl, sym, ap, ◌∙◌, ◌⊎◌, inl, inr, true, Bool-cases, Option, none, some, List, [], ◌∷◌,
  max,
}
use nam_plug.Engine.{Engine}
use nam_plug.Assets.{
  Bytes, Disk, Files, Loader, ProcessingParams, Result, done, failure, ok_or, ensure, ◌>>=◌,
  >>=-inv, ensure-true, ok_or-some, model_build_failed, model_basename_invalid, model_hash_missing,
  model_hash_malformed, model_not_found_portable, model_not_found_or_invalid, ir_not_found,
  ir_hash_missing, ir_hash_malformed, ir_hash_failed, ir_hash_mismatch,
}
use nam_plug.Assets.Digest.{compute_file_hash, is_valid_sha256_hex}
use nam_plug.Assets.Locate.{sanitize_basename, resolve_confined_candidate}
use nam_plug.Assets.Confined.{
  PlainName, Confined, sanitize_basename-PlainName, resolve_confined_candidate-Confined,
}
use nam_plug.Assets.Validate.{
  or_error, same_stat, hash_matches, ModelResources, FoundModel, resize, build_model_resources,
  adopt, verified_candidate, search_model, search_dirs, find_by_basename, from_basename,
  validate_model_from_basename,
}

pub or_error-done :
    {A : Type 0} (e : nam_plug.Assets.PluginError) (m : Result A) (a : A)
    → or_error e m ≡ done a
    → m ≡ done a
or_error-done e (done x) a h = h
or_error-done e (failure f) a h = cc h

module _ {E : Engine} {K : Disk} (L : Loader E K) where
  -- The evidence for a model that a restore has built.
  pub record ModelEvidence (seen before : Files K) (p : ProcessingParams E K) (v : FoundModel L)
      (m : ModelResources L) : Type 0 where
    pub expected : Bytes
    pub saved : p.model_hash ≡ some expected
    pub well_formed : is_valid_sha256_hex expected ≡ true
    pub path : K.FilePath
    pub adopted : v.path_on_disk ≡ some path
    pub matched : hash_matches (compute_file_hash K seen path) expected ≡ true
    pub built_hash : compute_file_hash K before path ≡ done m.model_hash
    pub kept_hash : v.hash ≡ some m.model_hash
    pub source :
        (p.model_path ≡ some path)
        ⊎ ((name : Bytes) × (p.model_basename ≡ some name)
            × PlainName name
            × Confined seen (search_dirs L seen p) name path)

  build_model_resources-hash :
      (before after : Files K) (path : K.FilePath) (r b : ℕ) (m : ModelResources L)
      → build_model_resources L before after path r b ≡ done m
      → compute_file_hash K before path ≡ done m.model_hash
  unfolding build_model_resources
  build_model_resources-hash before after path r b m h0 =
      let (st, a1, h1) = >>=-inv (ok_or (before.metadata path) model_build_failed) _ m h0 in
      let (hash, a2, h2) =
        >>=-inv (or_error model_build_failed (compute_file_hash K before path)) _ m h1 in
      let (pair, a3, h3) =
        >>=-inv (ok_or (L.load_and_build_model after path) model_build_failed) _ m h2 in
      let (st', a4, h4) = >>=-inv (ok_or (after.metadata path) model_build_failed) _ m h3 in
      let (u, a5, h5) = >>=-inv (ensure (same_stat st' st) model_build_failed) _ m h4 in
      let (l, a6, h6) = >>=-inv (ok_or pair.model_l model_build_failed) _ m h5 in
      let (l', a7, h7) = >>=-inv (resize L b (some l)) _ m h6 in
      let (r', a8, h8) = >>=-inv (resize L b pair.model_r) _ m h7 in
      let (rs, a9, h9) =
        >>=-inv (ok_or (L.new_simple r pair.sample_rate) model_build_failed) _ m h8 in
      let (ns, a10, h10) =
        >>=-inv (ok_or (L.new_stream r pair.sample_rate (max b 1)) model_build_failed) _ m h9 in
      let k : hash ≡ m.model_hash = ap hash_of h10 in
      or_error-done model_build_failed (compute_file_hash K before path) hash a2 ∙ ap done k
    where
      hash_of : Result (ModelResources L) → Bytes
      hash_of (done x) = x.model_hash
      hash_of (failure e) = []

  pub adopt-lem :
      (before after : Files K) (r b : ℕ) (path : K.FilePath) (v : FoundModel L)
      → adopt L before after r b path ≡ done v
      → (m : ModelResources L) × (v.model ≡ some m)
        × (v.path_on_disk ≡ some path)
        × (v.hash ≡ some m.model_hash)
        × (compute_file_hash K before path ≡ done m.model_hash)
  unfolding adopt
  adopt-lem before after r b path v h =
      let (m, a, k) = >>=-inv (build_model_resources L before after path r b) _ v h in
      (
        m,
        sym (ap model_of k),
        sym (ap path_of k),
        sym (ap hash_of k),
        build_model_resources-hash before after path r b m a,
      )
    where
      model_of : Result (FoundModel L) → Option (ModelResources L)
      model_of (done x) = x.model
      model_of (failure e) = none

      path_of : Result (FoundModel L) → Option K.FilePath
      path_of (done x) = x.path_on_disk
      path_of (failure e) = none

      hash_of : Result (FoundModel L) → Option Bytes
      hash_of (done x) = x.hash
      hash_of (failure e) = none

  verified_candidate-some :
      (F : Files K) (o : Option K.FilePath) (expected : Bytes) (c : K.FilePath)
      → verified_candidate L F o expected ≡ some c
      → (o ≡ some c) × (hash_matches (compute_file_hash K F c) expected ≡ true)
  verified_candidate-some F none expected c h = cc h
  verified_candidate-some F (some x) expected c h =
      elim (Bool-cases (hash_matches (compute_file_hash K F x) expected)) [
        | inl t ↦
            let e : some x ≡ some c = sym (rw t refl) ∙ h in let k : x ≡ c = cc e in (e, rw (← k) t)
        | inr t ↦ let e : none ≡ some c = sym (rw t refl) ∙ h in cc e
      ]

  search_model-lem :
      (F : Files K) (dirs all : List K.FilePath) (name expected : Bytes) (c : K.FilePath)
      → ((d : K.FilePath) → Memᴰ d dirs → Memᴰ d all)
      → search_model L F dirs name expected ≡ some c
      → Confined F all name c × (hash_matches (compute_file_hash K F c) expected ≡ true)
  unfolding search_model
  search_model-lem F [] all name expected c sub h = cc h
  search_model-lem F (d ∷ ds) all name expected c sub h =
      by_case (verified_candidate L F (resolve_confined_candidate K F d name) expected) refl h
        (search_model-lem F ds all name expected c (λ x m. sub x (Memᴰ.tail m)))
    where
      by_case :
          (o : Option K.FilePath)
          → verified_candidate L F (resolve_confined_candidate K F d name) expected ≡ o
          → elim o [ some x ↦ some x | none ↦ search_model L F ds name expected ] ≡ some c
          → (search_model L F ds name expected ≡ some c
              → Confined F all name c × (hash_matches (compute_file_hash K F c) expected ≡ true))
          → Confined F all name c × (hash_matches (compute_file_hash K F c) expected ≡ true)
      by_case none e k ih = ih k
      by_case (some x) e k ih =
          let (a, b) =
            verified_candidate-some F (resolve_confined_candidate K F d name) expected c (e ∙ k) in
          (resolve_confined_candidate-Confined F d all name c (sub d (Memᴰ.head refl)) a, b)

  -- A model that was found comes with its evidence.
  abbrev pub ModelVerified : Files K → Files K → ProcessingParams E K → FoundModel L → Type 0
  ModelVerified seen before p v =
      (m : ModelResources L) → v.model ≡ some m → ModelEvidence seen before p v m

  from_basename-Verified :
      (seen before after : Files K) (p : ProcessingParams E K) (r b : ℕ) (o : Option Bytes)
      (v : FoundModel L)
      → p.model_basename ≡ o
      → from_basename L seen before after p r b o ≡ done v
      → ModelVerified seen before p v
  unfolding find_by_basename
  from_basename-Verified seen before after p r b none v e h m k =
      let i : none ≡ some m = ap model_of h ∙ k in cc i
    where
      model_of : Result (FoundModel L) → Option (ModelResources L)
      model_of (done x) = x.model
      model_of (failure e) = none
  from_basename-Verified seen before after p r b (some raw) v e h m k =
      let (clean, a1, h1) = >>=-inv (ok_or (sanitize_basename raw) model_basename_invalid) _ v h in
      let (expected, a2, h2) = >>=-inv (ok_or p.model_hash model_hash_missing) _ v h1 in
      let (u, a3, h3) =
        >>=-inv (ensure (is_valid_sha256_hex expected) model_hash_malformed) _ v h2 in
      let (c, a4, h4) =
        >>=-inv
          (ok_or (search_model L seen (search_dirs L seen p) clean expected)
            model_not_found_portable)
          _ v h3 in
      let (found, matched) =
        search_model-lem seen (search_dirs L seen p) (search_dirs L seen p) clean expected c
          (λ x i. i)
          (ok_or-some (search_model L seen (search_dirs L seen p) clean expected)
            model_not_found_portable c a4) in
      let (n, x, y, z, w) = adopt-lem before after r b c v h4 in
      let i : n ≡ m = cc (x, k) in
      let (q, plain) =
        sanitize_basename-PlainName raw clean
          (ok_or-some (sanitize_basename raw) model_basename_invalid clean a1) in
      record {
        expected = expected;
        saved = ok_or-some p.model_hash model_hash_missing expected a2;
        well_formed = ensure-true (is_valid_sha256_hex expected) model_hash_malformed u a3;
        path = c;
        adopted = y;
        matched = matched;
        built_hash = w ∙ ap (λ s. done s.model_hash) i;
        kept_hash = z ∙ ap (λ s. some s.model_hash) i;
        source = inr (clean, e ∙ ap some (sym q), plain, found);
      }

  pub validate_model_from_basename-Verified :
      (seen before after : Files K) (p : ProcessingParams E K) (r b : ℕ) (v : FoundModel L)
      → validate_model_from_basename L seen before after p r b ≡ done v
      → ModelVerified seen before p v
  unfolding validate_model_from_basename
  validate_model_from_basename-Verified seen before after p r b v h =
      from_basename-Verified seen before after p r b p.model_basename v refl h
