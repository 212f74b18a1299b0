-- ===== src/State/Accepting.antt =====
-- src/clap/extensions/state_transaction/validate.rs: parameters whose assets have digests are not refused.
use nam_plug.Prelude.{
  ℕ, ◌≡◌, refl, ap, ◌∙◌, Bool, true, false, ◌&&◌, Option, none, some, ltb, max, if◌then◌else◌,
}
use nam_plug.Engine.{Engine}
use nam_plug.Assets.{
  Bytes, Disk, Files, Loader, ProcessingParams, PluginError, Result, done, failure, ◌>>=◌, ensure,
  ok_or, ok_or-some, empty_buffer, stream_too_large, corrupted_envelope, deserialize, read_stream,
  model_hash_missing, model_hash_malformed, ir_hash_missing, ir_hash_malformed, model_build_failed,
  model_basename_invalid, model_not_found_portable, model_not_found_or_invalid,
}
use nam_plug.Assets.Digest.{is_valid_sha256_hex, compute_file_hash}
use nam_plug.Assets.Locate.{sanitize_basename}
use nam_plug.Assets.Validate.{
  RestoreMode, full_mode, for_preset, or_error, same_stat, resize, build_model_resources, adopt,
  search_model, search_dirs, find_by_basename, from_basename, validate_model_from_basename,
  saved_hash_valid, has_basename, from_path, validate_model_full, validate_model,
}

-- The errors that say that the state itself, and not an asset or the loader, is at fault.
abbrev pub is_refusal : PluginError → Bool
is_refusal empty_buffer = true
is_refusal stream_too_large = true
is_refusal corrupted_envelope = true
is_refusal deserialize = true
is_refusal read_stream = true
is_refusal model_hash_missing = true
is_refusal model_hash_malformed = true
is_refusal ir_hash_missing = true
is_refusal ir_hash_malformed = true
is_refusal _ = false

abbrev pub Accepting {ℓ} : {A : Type ℓ} → Result A → Type ℓ
Accepting r = (e : PluginError) → r ≡ failure e → is_refusal e ≡ false

pub >>=-Accepting {ℓ κ} :
    {A : Type ℓ} {B : Type κ} (m : Result A) (f : A → Result B)
    → Accepting m
    → ((a : A) → m ≡ done a → Accepting (f a))
    → Accepting (m >>= f)
>>=-Accepting (done a) f h k e q = k a refl e q
>>=-Accepting (failure x) f h k e q = h e (cc q)

pub done-Accepting {ℓ} : {A : Type ℓ} (a : A) → Accepting (done a)
done-Accepting a e q = cc q

pub failure-Accepting {ℓ} :
    {A : Type ℓ} (x : PluginError) → is_refusal x ≡ false → Accepting {A = A} (failure x)
failure-Accepting x h e q = let k : x ≡ e = cc q in rw (← k) h

pub ok_or-Accepting {ℓ} :
    {A : Type ℓ} (o : Option A) (x : PluginError) → is_refusal x ≡ false → Accepting (ok_or o x)
ok_or-Accepting none x h = failure-Accepting x h
ok_or-Accepting (some a) x h = done-Accepting a

pub ensure-Accepting : (t : Bool) (x : PluginError) → is_refusal x ≡ false → Accepting (ensure t x)
ensure-Accepting true x h = done-Accepting tt
ensure-Accepting false x h = failure-Accepting x h

pub or_error-Accepting {ℓ} :
    {A : Type ℓ} (r : Result A) (x : PluginError) → is_refusal x ≡ false → Accepting (or_error x r)
or_error-Accepting (done a) x h = done-Accepting a
or_error-Accepting (failure y) x h = failure-Accepting x h

-- Guards that are known to hold.
pub ok_or-met {ℓ} :
    {A : Type ℓ} (o : Option A) (a : A) (x : PluginError) → o ≡ some a → Accepting (ok_or o x)
ok_or-met none a x h e q = cc h
ok_or-met (some b) a x h e q = cc q

pub ensure-met : (t : Bool) (x : PluginError) → t ≡ true → Accepting (ensure t x)
ensure-met true x h e q = cc q
ensure-met false x h e q = cc h

module _ {E : Engine} {K : Disk} where
  -- Every asset that is named has a well-formed digest.
  pub record Identity (p : ProcessingParams E K) : Type 0 where
    pub by_basename :
        (b : Bytes)
        → p.model_basename ≡ some b
        → (h : Bytes) × (p.model_hash ≡ some h) × (is_valid_sha256_hex h ≡ true)
    pub by_ir_path :
        (x : K.FilePath)
        → p.ir_path ≡ some x
        → (h : Bytes) × (p.ir_hash ≡ some h) × (is_valid_sha256_hex h ≡ true)

module _ {E : Engine} {K : Disk} (L : Loader E K) where
  resize-Accepting : (n : ℕ) (o : Option E.StaticModel) → Accepting (resize L n o)
  resize-Accepting n none = done-Accepting none
  resize-Accepting n (some m) = by_test (ltb 0 n)
    where
      by_test :
          (t : Bool)
          → Accepting (
              if t
              then (ok_or (L.set_max_buffer_size n m) model_build_failed >>= λ r. done (some r))
              else done (some m))
      by_test true =
          >>=-Accepting (ok_or (L.set_max_buffer_size n m) model_build_failed) (λ r. done (some r))
            (ok_or-Accepting (L.set_max_buffer_size n m) model_build_failed refl)
            (λ r h. done-Accepting (some r))
      by_test false = done-Accepting (some m)

  build_model_resources-Accepting :
      (before after : Files K) (path : K.FilePath) (r b : ℕ)
      → Accepting (build_model_resources L before after path r b)
  unfolding build_model_resources
  build_model_resources-Accepting before after path r b =
      >>=-Accepting _ _ (ok_or-Accepting (before.metadata path) model_build_failed refl) (λ m0 h0.
        >>=-Accepting _ _
          (or_error-Accepting (compute_file_hash K before path) model_build_failed refl)
          (λ hash h1.
            >>=-Accepting _ _
              (ok_or-Accepting (L.load_and_build_model after path) model_build_failed refl)
              (λ pair h2.
                >>=-Accepting _ _ (ok_or-Accepting (after.metadata path) model_build_failed refl)
                  (λ m1 h3.
                    >>=-Accepting _ _ (ensure-Accepting (same_stat m1 m0) model_build_failed refl)
                      (λ u h4.
                        >>=-Accepting _ _ (ok_or-Accepting pair.model_l model_build_failed refl)
                          (λ l h5. >>=-Accepting _ _ (resize-Accepting b (some l)) (λ ml h6.
                            >>=-Accepting _ _ (resize-Accepting b pair.model_r) (λ mr h7.
                              >>=-Accepting _ _
                                (ok_or-Accepting (L.new_simple r pair.sample_rate)
                                  model_build_failed refl)
                                (λ rs h8.
                                  >>=-Accepting _ _
                                    (ok_or-Accepting (L.new_stream r pair.sample_rate (max b 1))
                                      model_build_failed refl)
                                    (λ st h9. done-Accepting _))))))))))

  adopt-Accepting :
      (before after : Files K) (r b : ℕ) (path : K.FilePath)
      → Accepting (adopt L before after r b path)
  unfolding adopt
  adopt-Accepting before after r b path =
      >>=-Accepting _ _ (build_model_resources-Accepting before after path r b)
        (λ m h. done-Accepting _)

  from_basename-Accepting :
      (seen before after : Files K) (p : ProcessingParams E K) (r b : ℕ) (o : Option Bytes)
      → Identity p
      → p.model_basename ≡ o
      → Accepting (from_basename L seen before after p r b o)
  unfolding find_by_basename
  from_basename-Accepting seen before after p r b none i q = done-Accepting _
  from_basename-Accepting seen before after p r b (some raw) i q =
      let (hash, k, w) = i.by_basename raw q in
      >>=-Accepting _ _ (ok_or-Accepting (sanitize_basename raw) model_basename_invalid refl)
        (λ name h0.
          >>=-Accepting _ _ (ok_or-met p.model_hash hash model_hash_missing k) (λ expected h1.
            >>=-Accepting _ _
              (ensure-met (is_valid_sha256_hex expected) model_hash_malformed
                (ap is_valid_sha256_hex (found expected hash h1 k) ∙ w))
              (λ u h2.
                >>=-Accepting _ _
                  (ok_or-Accepting (search_model L seen (search_dirs L seen p) name expected)
                    model_not_found_portable refl)
                  (λ path h3. adopt-Accepting before after r b path))))
    where
      found :
          (x y : Bytes)
          → ok_or p.model_hash model_hash_missing ≡ done x
          → p.model_hash ≡ some y
          → x ≡ y
      found x y h k = cc (ok_or-some p.model_hash model_hash_missing x h, k)

  from_path-Accepting :
      (seen before after : Files K) (p : ProcessingParams E K) (r b : ℕ) (o : Option K.FilePath)
      → Identity p
      → Accepting (from_path L seen before after p r b o)
  unfolding validate_model_from_basename
  from_path-Accepting seen before after p r b none i =
      from_basename-Accepting seen before after p r b p.model_basename i refl
  from_path-Accepting seen before after p r b (some path) i =
      by_test (seen.exists path && saved_hash_valid L seen p.model_hash path)
        (has_basename L p.model_basename)
    where
      by_test :
          (t n : Bool)
          → Accepting (
              if t
              then adopt L before after r b path
              else if n
              then validate_model_from_basename L seen before after p r b
              else failure model_not_found_or_invalid)
      by_test true n = adopt-Accepting before after r b path
      by_test false true = from_basename-Accepting seen before after p r b p.model_basename i refl
      by_test false false = failure-Accepting model_not_found_or_invalid refl

  pub validate_model-Accepting :
      (mode : RestoreMode) (seen before after : Files K) (p : ProcessingParams E K) (r b : ℕ)
      → Identity p
      → Accepting (validate_model L mode seen before after p r b)
  unfolding validate_model_full validate_model_from_basename
  validate_model-Accepting full_mode seen before after p r b i =
      from_path-Accepting seen before after p r b p.model_path i
  validate_model-Accepting for_preset seen before after p r b i =
      from_basename-Accepting seen before after p r b p.model_basename i refl
