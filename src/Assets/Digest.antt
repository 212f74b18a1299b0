-- ===== src/Assets/Digest.antt =====
-- src/clap/extensions/state_transaction/validate.rs: the hash of a file, in two ways, and the test of a
-- saved hash.
use nam_plug.Prelude.{
  ℕ, zero, suc, ◌+◌, ◌-◌, ◌*◌, ◌/◌, ◌%◌, Bool, true, false, ◌&&◌, ◌||◌, Option, none, some, List,
  [], ◌∷◌, ◌++◌, length, take, ltb, leb, ◌==◌, if◌then◌else◌,
}
use nam_plug.Assets.{
  Bytes, Disk, Files, Result, done, failure, ◌>>=◌, ◌>>◌, ensure, ok_or, hash_metadata_failed,
  hash_target_not_regular_file, hash_file_too_large, hash_open_failed, hash_read_failed,
  hash_stream_too_large,
}

abbrev pub max_file_hash_size : ℕ
max_file_hash_size = 256 * 1024 * 1024

-- The byte of `b"0123456789abcdef"` at an index below 16.
unfoldable pub hex_digit : ℕ → ℕ
hex_digit n = if ltb n 10 then n + 48 else n + 87

unfoldable pub hex : Bytes → Bytes
unfolding hex_digit
hex [] = []
hex (b ∷ bs) = hex_digit (b / 16) ∷ hex_digit (b % 16) ∷ hex bs

-- `is_ascii_hexdigit`.
abbrev pub is_ascii_hexdigit : ℕ → Bool
is_ascii_hexdigit b =
    (leb b'0' b && leb b b'9') || (leb b'a' b && leb b b'f') || (leb b'A' b && leb b b'F')

abbrev pub all_hexdigits : Bytes → Bool
all_hexdigits [] = true
all_hexdigits (b ∷ bs) = is_ascii_hexdigit b && all_hexdigits bs

unfoldable pub is_valid_sha256_hex : Bytes → Bool
is_valid_sha256_hex digest = length digest == 64 && all_hexdigits digest

-- `eq_ignore_ascii_case`.
abbrev pub to_ascii_lowercase : ℕ → ℕ
to_ascii_lowercase b = if leb b'A' b && leb b b'Z' then b + 32 else b

abbrev pub eq_ignore_ascii_case : Bytes → Bytes → Bool
eq_ignore_ascii_case [] [] = true
eq_ignore_ascii_case [] (b ∷ bs) = false
eq_ignore_ascii_case (a ∷ as') [] = false
eq_ignore_ascii_case (a ∷ as') (b ∷ bs) =
    to_ascii_lowercase a == to_ascii_lowercase b && eq_ignore_ascii_case as' bs

-- The loop of `compute_file_hash`, which feeds `seen` to the hasher: a read of no bytes ends it.
unfoldable pub hash_loop : ℕ → Bytes → List (Option Bytes) → Result Bytes
hash_loop total_read seen [] = done seen
hash_loop total_read seen (none ∷ reads) = failure hash_read_failed
hash_loop total_read seen (some [] ∷ reads) = done seen
hash_loop total_read seen (some (b ∷ bs) ∷ reads) =
    let rest = hash_loop (total_read + length (b ∷ bs)) (seen ++ (b ∷ bs)) reads in
    if ltb max_file_hash_size (total_read + length (b ∷ bs))
    then failure hash_stream_too_large
    else rest

-- `take(limit).read_to_end`: nothing is read past the limit.
unfoldable pub read_to_end : ℕ → List (Option Bytes) → Result Bytes
read_to_end zero reads = done []
read_to_end (suc n) [] = done []
read_to_end (suc n) (none ∷ reads) = failure hash_read_failed
read_to_end (suc n) (some [] ∷ reads) = done []
read_to_end (suc n) (some (b ∷ bs) ∷ reads) =
    read_to_end (suc n - length (b ∷ bs)) reads >>= λ rest. done (take (suc n) (b ∷ bs) ++ rest)

module _ (K : Disk) where
  unfoldable pub compute_bytes_hash : Bytes → Bytes
  unfolding hex
  compute_bytes_hash bytes = hex (K.sha256 bytes)

  unfoldable pub compute_file_hash : Files K → K.FilePath → Result Bytes
  unfolding hash_loop compute_bytes_hash
  compute_file_hash F path = do
    stat ← ok_or (F.metadata path) hash_metadata_failed
    ensure stat.is_file hash_target_not_regular_file
    ensure (leb stat.len max_file_hash_size) hash_file_too_large
    reads ← ok_or (F.open_file path) hash_open_failed
    bytes ← hash_loop 0 [] reads
    done (compute_bytes_hash bytes)

  unfoldable pub read_ir_file_bytes : Files K → K.FilePath → Result Bytes
  unfolding read_to_end
  read_ir_file_bytes F path = do
    stat ← ok_or (F.metadata path) hash_metadata_failed
    ensure stat.is_file hash_target_not_regular_file
    ensure (leb stat.len max_file_hash_size) hash_file_too_large
    reads ← ok_or (F.open_file path) hash_open_failed
    bytes ← read_to_end (max_file_hash_size + 1) reads
    ensure (leb (length bytes) max_file_hash_size) hash_file_too_large
    done bytes
