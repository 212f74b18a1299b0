-- ===== src/State/Sound.antt =====
-- src/clap/extensions/state_transaction/validate.rs: what validation finds is nothing, or has a well-formed
-- digest.
use mathlib.Core.Path.{subst}
use nam_plug.Prelude.{
  ℕ, ◌≡◌, refl, Bool, true, false, ◌&&◌, Option, none, some, [], length, leb, All, ◌<◌,
  if◌then◌else◌,
}
use nam_plug.Engine.{Engine, Ring}
use nam_plug.Dsp.{Dsp}
use nam_plug.Payload.{ClapParamPayload}
use nam_plug.Commit.{Models}
use nam_plug.Commit.Same.{Paired}
use nam_plug.Assets.{
  Bytes, Disk, Files, Loader, ProcessingParams, Result, done, failure, ◌>>=◌, ◌>>◌, ensure, ok_or,
  hash_metadata_failed, hash_target_not_regular_file, hash_file_too_large, hash_open_failed,
  model_basename_invalid, model_hash_missing, model_hash_malformed, model_not_found_portable,
  ir_not_found, ir_hash_missing, ir_hash_malformed, ir_hash_failed, ir_hash_mismatch,
}
use nam_plug.Assets.Locate.{sanitize_basename}
use nam_plug.Assets.Digest.{
  max_file_hash_size, hash_loop, read_ir_file_bytes, eq_ignore_ascii_case, is_valid_sha256_hex,
  compute_file_hash, compute_bytes_hash,
}
use nam_plug.Assets.Digits.{compute_bytes_hash-valid}
use nam_plug.Assets.Verified.{adopt-lem}
use nam_plug.Assets.Validate.{
  or_error, build_ir_resources_from_bytes, full_mode, FoundModel, FoundIr, ValidatedRestore,
  no_model, adopt, search_model, search_dirs, find_by_basename, from_basename,
  validate_model_from_basename, saved_hash_valid, has_basename, from_path, validate_model_full,
  validate_ir_at, ir_from, validate_ir, validate_model, validate_and_build, validated,
}

abbrev pub Giving {ℓ κ} : {A : Type ℓ} → (A → Type κ) → Result A → Type (ℓ ⊔ κ)
Giving P r = (a : _) → r ≡ done a → P a

pub >>=-Giving {ℓ κ ι} :
    {A : Type ℓ} {B : Type κ} {P : B → Type ι} (m : Result A) (f : A → Result B)
    → ((a : A) → m ≡ done a → Giving P (f a))
    → Giving P (m >>= f)
>>=-Giving (done a) f k b q = k a refl b q
>>=-Giving (failure x) f k b q = cc q

pub done-Giving {ℓ κ} : {A : Type ℓ} (P : A → Type κ) (x : A) → P x → Giving P (done x)
done-Giving P x w a h = let k : x ≡ a = cc h in subst P k w

-- A model's path, name and digest; an impulse response's path and digest.
pub data SoundModel {ℓ} {A : Type ℓ} : Option A → Option Bytes → Option Bytes → Type ℓ where
  no_asset : SoundModel none none none
  digest :
      (path : Option A) (name : Option Bytes) (h : Bytes)
      → is_valid_sha256_hex h ≡ true
      → SoundModel path name (some h)

pub data SoundIr {ℓ} {A : Type ℓ} : Option A → Option Bytes → Type ℓ where
  no_ir : SoundIr none none
  ir_digest : (path : A) (h : Bytes) → is_valid_sha256_hex h ≡ true → SoundIr (some path) (some h)

module _ {K : Disk} where
  compute_file_hash-valid :
      ((b : Bytes) → (length (K.sha256 b) ≡ 32) × All (λ x. x < 256) (K.sha256 b))
      → (F : Files K) (path : K.FilePath)
      → Giving (λ h. is_valid_sha256_hex h ≡ true) (compute_file_hash K F path)
  unfolding compute_file_hash
  compute_file_hash-valid sha F path =
      >>=-Giving (ok_or (F.metadata path) hash_metadata_failed) _ (λ st h0.
        >>=-Giving (ensure st.is_file hash_target_not_regular_file) _ (λ u h1.
          >>=-Giving (ensure (leb st.len max_file_hash_size) hash_file_too_large) _ (λ w h2.
            >>=-Giving (ok_or (F.open_file path) hash_open_failed) _ (λ reads h3.
              >>=-Giving (hash_loop 0 [] reads) _ (λ bytes h4.
                done-Giving _ (compute_bytes_hash K bytes)
                  (compute_bytes_hash-valid K sha bytes))))))

module _ {E : Engine} {K : Disk} (L : Loader E K)
    (sha : (b : Bytes) → (length (K.sha256 b) ≡ 32) × All (λ x. x < 256) (K.sha256 b)) where
  abbrev SoundFound : FoundModel L → Type 0
  SoundFound v = SoundModel v.path_on_disk v.basename v.hash

  adopt-Sound :
      (before after : Files K) (r b : ℕ) (path : K.FilePath)
      → Giving SoundFound (adopt L before after r b path)
  adopt-Sound before after r b path v h =
      let (m, x, y, z, u) = adopt-lem L before after r b path v h in
      rw z (
        digest v.path_on_disk v.basename m.model_hash
          (compute_file_hash-valid sha before path m.model_hash u))

  from_basename-Sound :
      (seen before after : Files K) (p : ProcessingParams E K) (r b : ℕ) (o : Option Bytes)
      → Giving SoundFound (from_basename L seen before after p r b o)
  unfolding find_by_basename
  from_basename-Sound seen before after p r b none = done-Giving _ (no_model L) no_asset
  from_basename-Sound seen before after p r b (some raw) =
      >>=-Giving (ok_or (sanitize_basename raw) model_basename_invalid) _ (λ name h0.
        >>=-Giving (ok_or p.model_hash model_hash_missing) _ (λ expected h1.
          >>=-Giving (ensure (is_valid_sha256_hex expected) model_hash_malformed) _ (λ u h2.
            >>=-Giving
              (ok_or (search_model L seen (search_dirs L seen p) name expected)
                model_not_found_portable)
              _ (λ path h3. adopt-Sound before after r b path))))

  from_path-Sound :
      (seen before after : Files K) (p : ProcessingParams E K) (r b : ℕ) (o : Option K.FilePath)
      → Giving SoundFound (from_path L seen before after p r b o)
  unfolding validate_model_from_basename
  from_path-Sound seen before after p r b none =
      from_basename-Sound seen before after p r b p.model_basename
  from_path-Sound seen before after p r b (some path) =
      by_test (seen.exists path && saved_hash_valid L seen p.model_hash path)
        (has_basename L p.model_basename)
    where
      by_test :
          (t n : Bool)
          → Giving SoundFound (
              if t
              then adopt L before after r b path
              else if n
              then validate_model_from_basename L seen before after p r b
              else failure nam_plug.Assets.model_not_found_or_invalid)
      by_test true n = adopt-Sound before after r b path
      by_test false true = from_basename-Sound seen before after p r b p.model_basename
      by_test false false = λ v h. cc h

  module _ (M : Models E K) (D : Dsp E) (R : Ring (ClapParamPayload E)) where
    abbrev SoundFoundIr : FoundIr L → Type 0
    SoundFoundIr v = SoundIr v.path_on_disk v.hash × Paired L M D R v.ir v.path_on_disk

    ir_from-Sound :
        (F : Files K) (p : ProcessingParams E K) (r b : ℕ) (o : Option K.FilePath)
        → Giving SoundFoundIr (ir_from L F p r b o)
    unfolding validate_ir_at
    ir_from-Sound F p r b none =
        done-Giving _ (record { ir = none; path_on_disk = none; hash = none }) (no_ir, tt)
    ir_from-Sound F p r b (some path) = >>=-Giving (ensure (F.exists path) ir_not_found) _ (λ u h0.
        >>=-Giving (ok_or p.ir_hash ir_hash_missing) _ (λ expected h1.
          >>=-Giving (ensure (is_valid_sha256_hex expected) ir_hash_malformed) _ (λ w h2.
            >>=-Giving (or_error ir_hash_failed (read_ir_file_bytes K F path)) _ (λ bytes h3.
              >>=-Giving
                (ensure (eq_ignore_ascii_case (compute_bytes_hash K bytes) expected)
                  ir_hash_mismatch)
                _
                (λ y h4. >>=-Giving (build_ir_resources_from_bytes L bytes r b) _ (λ res h5.
                  done-Giving _
                    (record {
                      ir = some res;
                      path_on_disk = some (K.to_string_lossy path);
                      hash = some (compute_bytes_hash K bytes);
                    })
                    (
                      ir_digest (K.to_string_lossy path) (compute_bytes_hash K bytes)
                          (compute_bytes_hash-valid K sha bytes),
                      tt,
                    )))))))

    abbrev pub SoundRestore : ValidatedRestore L → Type 0
    SoundRestore v =
        SoundModel v.model_path_on_disk v.model_basename v.model_hash
        × SoundIr v.ir_path_on_disk v.ir_hash
        × Paired L M D R v.ir v.ir_path_on_disk

    pub validate_and_build-Sound :
        (seen before after : Files K) (p : ProcessingParams E K) (r b : ℕ)
        → Giving SoundRestore (validate_and_build L full_mode seen before after p r b)
    unfolding validate_and_build validate_model_full validate_ir
    validate_and_build-Sound seen before after p r b =
        >>=-Giving (validate_model L full_mode seen before after p r b) _ (λ f h0.
          >>=-Giving (validate_ir L after p r b) _ (λ g h1.
            let (x, y) = ir_from-Sound after p r b p.ir_path g h1 in
            done-Giving _ (validated L p f g)
              (from_path-Sound seen before after p r b p.model_path f h0, x, y)))
