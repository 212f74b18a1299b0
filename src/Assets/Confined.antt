-- ===== src/Assets/Confined.antt =====
-- src/clap/extensions/state_transaction/validate.rs: what a model found by its name satisfies.
use mathlib.Core.List.{Memᴰ}
use nam_plug.Prelude.{
  ◌≡◌, refl, sym, ◌∙◌, Bool, true, false, ◌||◌, Bool-cases, Option, none, some, List, inl, inr,
  arith,
}
use nam_plug.Assets.{Bytes, Disk, Files}
use nam_plug.Assets.Locate.{
  contains, contains_dots, is_dot, is_empty, sanitize_basename, resolve_confined_candidate,
  resolve_in, confined,
}

-- One component of a path that names an entry of its directory.
pub record PlainName (name : Bytes) : Type 0 where
  pub not_empty : is_empty name ≡ false
  pub no_slash : contains b'/' name ≡ false
  pub no_parent : contains_dots name ≡ false
  pub not_dot : is_dot name ≡ false
  pub no_nul : contains 0 name ≡ false

all_false :
    (a b c d e f : Bool)
    → a || b || c || d || e || f ≡ false
    → (a ≡ false) × (b ≡ false) × (c ≡ false) × (d ≡ false) × (e ≡ false) × (f ≡ false)
all_false a b c d e f h = ground arith

pub sanitize_basename-PlainName :
    (raw name : Bytes) → sanitize_basename raw ≡ some name → (name ≡ raw) × PlainName name
unfolding sanitize_basename
sanitize_basename-PlainName raw name h = elim (Bool-cases test) [
  | inl t ↦ let k : none ≡ some name = sym (rw t refl) ∙ h in cc k
  | inr t ↦
      let k : some raw ≡ some name = sym (rw t refl) ∙ h in
      let e : raw ≡ name = cc k in
      let (a, b, c, d, x, y) =
        all_false (is_empty raw) (contains b'/' raw) (contains 0x5c raw) (contains_dots raw)
          (contains 0 raw) (is_dot raw) t in
      (
        sym e,
        rw (← e) (record { not_empty = a; no_slash = b; no_parent = d; not_dot = y; no_nul = x }),
      )
]
  where
    test : Bool
    test =
        is_empty raw
        || contains b'/' raw
        || contains 0x5c raw
        || contains_dots raw
        || contains 0 raw
        || is_dot raw

module _ (K : Disk) where
  confined_lem :
      (d : K.FilePath) (o : Option K.FilePath) (c : K.FilePath)
      → confined K d o ≡ some c
      → (o ≡ some c) × (K.starts_with c d ≡ true)
  confined_lem d none c h = cc h
  confined_lem d (some x) c h = elim (Bool-cases (K.starts_with x d)) [
    | inl t ↦
        let e : some x ≡ some c = sym (rw t refl) ∙ h in let k : x ≡ c = cc e in (e, rw (← k) t)
    | inr t ↦ let e : none ≡ some c = sym (rw t refl) ∙ h in cc e
  ]

module _ {K : Disk} where
  -- The candidate is what `name` is in a directory of `dirs`, links followed, and still lies in it.
  pub record Confined (F : Files K) (dirs : List K.FilePath) (name : Bytes) (candidate : K.FilePath)
      : Type 0 where
    pub dir : K.FilePath
    pub listed : Memᴰ dir dirs
    pub canonical : K.FilePath
    pub resolved : F.canonicalize dir ≡ some canonical
    pub entry : F.canonicalize (K.join canonical name) ≡ some candidate
    pub inside : K.starts_with candidate canonical ≡ true

  resolve_in-Confined :
      (F : Files K) (o : Option K.FilePath) (name : Bytes) (c : K.FilePath)
      → resolve_in K F o name ≡ some c
      → (d : K.FilePath) × (o ≡ some d)
        × (F.canonicalize (K.join d name) ≡ some c)
        × (K.starts_with c d ≡ true)
  resolve_in-Confined F none name c h = cc h
  resolve_in-Confined F (some d) name c h = elim (Bool-cases (F.exists (K.join d name))) [
    | inl t ↦
        let e : confined K d (F.canonicalize (K.join d name)) ≡ some c = sym (rw t refl) ∙ h in
        let (x, y) = confined_lem K d (F.canonicalize (K.join d name)) c e in (d, refl, x, y)
    | inr t ↦ let e : none ≡ some c = sym (rw t refl) ∙ h in cc e
  ]

  pub resolve_confined_candidate-Confined :
      (F : Files K) (dir : K.FilePath) (dirs : List K.FilePath) (name : Bytes) (c : K.FilePath)
      → Memᴰ dir dirs
      → resolve_confined_candidate K F dir name ≡ some c
      → Confined F dirs name c
  unfolding resolve_confined_candidate
  resolve_confined_candidate-Confined F dir dirs name c m h =
      let (d, a, b, e) = resolve_in-Confined F (F.canonicalize dir) name c h in
      record { dir = dir; listed = m; canonical = d; resolved = a; entry = b; inside = e }
