-- ===== src/Assets/Tests.antt =====
-- A restore on the sample disk.
use nam_plug.Prelude.{ℕ, zero, suc, ◌<◌, ◌≤◌, ◌≡◌, refl, true, some, [], ◌∷◌, length, All, arith}
use nam_plug.Assets.{Bytes, done}
use nam_plug.Assets.Digest.{
  max_file_hash_size, is_valid_sha256_hex, compute_bytes_hash, compute_file_hash,
  read_ir_file_bytes,
}
use nam_plug.Assets.Locate.{sanitize_basename, resolve_confined_candidate}
use nam_plug.Assets.Sample.{repeat, ir_wav, disk, files, loader, saved_params, restored}
use nam_plug.Assets.Digits.{compute_file_hash-bytes}
use nam_plug.Assets.Validate.{for_preset, ModelResources, IrResources, validate_and_build}
use nam_plug.Assets.Verified.{ModelEvidence}
use nam_plug.Assets.Accepted.{IrEvidence, found_in, validate_and_build-Verified}

abbrev wav_bytes : Bytes
wav_bytes = 1 ∷ 2 ∷ 3 ∷ []

zeros-All : (n : ℕ) → All (λ x. x < 256) (repeat n 0)
zeros-All zero = tt
zeros-All (suc n) = (omega arith, zeros-All n)

read_wav : read_ir_file_bytes disk files ir_wav ≡ done wav_bytes
unfolding read_ir_file_bytes
read_wav = refl

compute_file_hash-bytes_example :
    (compute_file_hash disk files ir_wav ≡ done (compute_bytes_hash disk wav_bytes))
    × (is_valid_sha256_hex (compute_bytes_hash disk wav_bytes) ≡ true)
    × (length wav_bytes ≤ max_file_hash_size)
compute_file_hash-bytes_example =
    compute_file_hash-bytes disk files ir_wav wav_bytes (λ b. (refl, zeros-All 32)) read_wav

restored_lem :
    validate_and_build loader for_preset files files files saved_params 48000 64 ≡ done restored
unfolding validate_and_build sanitize_basename is_valid_sha256_hex resolve_confined_candidate
    compute_file_hash read_ir_file_bytes
restored_lem = refl

validate_and_build-Verified_example :
    (restored.params ≡ saved_params)
    × ((m : ModelResources loader)
        → restored.model ≡ some m
        → ModelEvidence loader files files saved_params (found_in loader restored) m)
    × ((i : IrResources loader)
        → restored.ir ≡ some i
        → IrEvidence loader files saved_params 48000 64 restored.ir_hash i)
validate_and_build-Verified_example =
    validate_and_build-Verified loader for_preset files files files saved_params 48000 64 restored
      restored_lem
