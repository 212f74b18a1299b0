-- ===== src/Assets/Locate.antt =====
-- src/clap/extensions/state_transaction/validate.rs: where a model is looked for.
use nam_plug.Prelude.{
  ℕ, Bool, true, false, ◌&&◌, ◌||◌, Option, none, some, List, [], ◌∷◌, ◌++◌, ◌==◌, if◌then◌else◌,
}
use nam_plug.Assets.{Bytes, Disk, Files}

abbrev pub contains : ℕ → Bytes → Bool
contains c [] = false
contains c (b ∷ bs) = b == c || contains c bs

-- `raw_name.contains("..")`.
abbrev pub contains_dots : Bytes → Bool
contains_dots [] = false
contains_dots (a ∷ []) = false
contains_dots (a ∷ b ∷ bs) = (a == b'.' && b == b'.') || contains_dots (b ∷ bs)

abbrev pub is_dot : Bytes → Bool
is_dot [] = false
is_dot (a ∷ []) = a == b'.'
is_dot (a ∷ b ∷ bs) = false

abbrev pub is_empty : Bytes → Bool
is_empty [] = true
is_empty (b ∷ bs) = false

-- `Path::file_name` of a name without a slash: none for the current directory, else the name.
unfoldable pub sanitize_basename : Bytes → Option Bytes
sanitize_basename raw_name =
    if is_empty raw_name
      || contains b'/' raw_name
      || contains 0x5c raw_name
      || contains_dots raw_name
      || contains 0 raw_name
      || is_dot raw_name
    then none
    else some raw_name

module _ (K : Disk) where
  abbrev pub dir_if : Bool → K.FilePath → List K.FilePath
  dir_if true d = d ∷ []
  dir_if false d = []

  abbrev pub nam_models : Bytes
  nam_models = b'N' ∷ b'A' ∷ b'M' ∷ b' ' ∷ b'M' ∷ b'o' ∷ b'd' ∷ b'e' ∷ b'l' ∷ b's' ∷ []

  abbrev pub dot_nam : Bytes
  dot_nam = b'.' ∷ b'n' ∷ b'a' ∷ b'm' ∷ []

  abbrev pub models : Bytes
  models = b'm' ∷ b'o' ∷ b'd' ∷ b'e' ∷ b'l' ∷ b's' ∷ []

  unfoldable pub canonical_search_dirs : Files K → List K.FilePath
  canonical_search_dirs F = elim F.home [
    | none ↦ []
    | some home ↦
        let a = K.join (K.join home dot_nam) models in
        let b = K.join home nam_models in dir_if (F.is_dir a) a ++ dir_if (F.is_dir b) b
  ]

  -- The candidate is the canonical path, and only if it lies in the canonical directory.
  abbrev pub confined : K.FilePath → Option K.FilePath → Option K.FilePath
  confined dir none = none
  confined dir (some candidate) = if K.starts_with candidate dir then some candidate else none

  abbrev pub resolve_in : Files K → Option K.FilePath → Bytes → Option K.FilePath
  resolve_in F none clean_basename = none
  resolve_in F (some dir) clean_basename =
      if F.exists (K.join dir clean_basename)
      then confined dir (F.canonicalize (K.join dir clean_basename))
      else none

  unfoldable pub resolve_confined_candidate : Files K → K.FilePath → Bytes → Option K.FilePath
  resolve_confined_candidate F dir clean_basename = resolve_in F (F.canonicalize dir) clean_basename
