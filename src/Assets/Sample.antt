-- ===== src/Assets/Sample.antt =====
-- A disk with one model and one impulse response, a loader, and a saved state that names both; SHA-256
-- is constant here.
use nam_plug.Prelude.{ℕ, zero, suc, Bool, true, false, ◌&&◌, none, some, [], ◌∷◌, ◌++◌, ◌==◌}
use nam_plug.Samples.{engine}
use nam_plug.Assets.{Bytes, Disk, Files, Loader, ProcessingParams}
use nam_plug.Assets.Validate.{ValidatedRestore}

abbrev pub eq_bytes : Bytes → Bytes → Bool
eq_bytes [] [] = true
eq_bytes [] (b ∷ bs) = false
eq_bytes (a ∷ as') [] = false
eq_bytes (a ∷ as') (b ∷ bs) = a == b && eq_bytes as' bs

abbrev pub is_prefix : Bytes → Bytes → Bool
is_prefix [] bs = true
is_prefix (a ∷ as') [] = false
is_prefix (a ∷ as') (b ∷ bs) = a == b && is_prefix as' bs

abbrev pub repeat : ℕ → ℕ → Bytes
repeat zero b = []
repeat (suc n) b = b ∷ repeat n b

-- `/nam`, `a.nam` and `/ir.wav`.
abbrev pub nam_dir : Bytes
nam_dir = b'/' ∷ b'n' ∷ b'a' ∷ b'm' ∷ []

abbrev pub a_nam : Bytes
a_nam = b'a' ∷ b'.' ∷ b'n' ∷ b'a' ∷ b'm' ∷ []

abbrev pub ir_wav : Bytes
ir_wav = b'/' ∷ b'i' ∷ b'r' ∷ b'.' ∷ b'w' ∷ b'a' ∷ b'v' ∷ []

abbrev pub disk : Disk
disk = record {
  FilePath = Bytes;
  join = λ p name. p ++ (b'/' ∷ name);
  starts_with = λ p dir. is_prefix dir p;
  file_name = λ p. some a_nam;
  parent = λ p. some nam_dir;
  eq_path = eq_bytes;
  to_string_lossy = λ p. p;
  sha256 = λ bs. repeat 32 0;
}

abbrev pub files : Files disk
files = record {
  home = none;
  is_dir = λ p. eq_bytes p nam_dir;
  exists = λ p. true;
  canonicalize = λ p. some p;
  metadata = λ p. some (record { is_file = true; len = 3; modified = some 7 });
  open_file = λ p. some (some (1 ∷ 2 ∷ []) ∷ some (3 ∷ []) ∷ some [] ∷ []);
}

abbrev pub loader : Loader engine disk
loader = record {
  Metadata = ℕ;
  Info = ℕ;
  load_and_build_model = λ F p. some (record {
    model_l = some 1;
    model_r = none;
    sample_rate = 44100;
    input_mult_adj = 0;
    output_mult_adj = 0;
    metadata = 0;
    info = 0;
  });
  set_max_buffer_size = λ n m. some m;
  new_simple = λ r s. some 2;
  new_stream = λ r s n. some n;
  load_cabsim = λ bs r. some (record { samples = bs; sample_rate = r });
  build_pair = λ xs r n. some n;
}

abbrev pub digest : Bytes
digest = repeat 64 b'0'

abbrev pub saved_params : ProcessingParams engine disk
saved_params = record {
  rt = engine.default;
  model_path = none;
  model_basename = some a_nam;
  model_hash = some digest;
  model_search_paths = nam_dir ∷ [];
  ir_path = some ir_wav;
  ir_hash = some digest;
}

abbrev pub restored : ValidatedRestore loader
restored = record {
  params = saved_params;
  model = some (record {
    model_l = some 1;
    model_r = none;
    new_resampler = 2;
    new_stream = 64;
    input_mult_adj = 0;
    output_mult_adj = 0;
    buffer_size = 64;
    model_rate = 44100;
    model_metadata = 0;
    model_info = 0;
    model_hash = digest;
  });
  model_path_on_disk = some (nam_dir ++ (b'/' ∷ a_nam));
  model_basename = some a_nam;
  model_search_path_to_add = some nam_dir;
  model_hash = some digest;
  ir = some (record { pair = some 64; samples = 1 ∷ 2 ∷ 3 ∷ []; sample_rate = 48000 });
  ir_path_on_disk = some ir_wav;
  ir_hash = some digest;
}
