-- ===== src/State/Stream.antt =====
-- How a stream of the host gives back what was written to it, in reads of any sizes.
use nam_plug.Prelude.{
  ℕ, zero, suc, ◌-◌, ◌≤◌, ◌<◌, ◌≡◌, refl, sym, ap, ◌∙◌, Bool-cases, inl, inr, Option, none, some,
  List, [], ◌∷◌, ◌++◌, length, length-append, leb, take, arith,
}
use nam_plug.Assets.{Bytes, Result, done, ◌>>=◌}
use nam_plug.Assets.Digest.{read_to_end}
use nam_plug.Assets.Digits.{length-take, take-short}

-- The reads give these bytes, in pieces of any sizes, and none fails; a read of no bytes is the end.
abbrev pub Delivers : List (Option Bytes) → Bytes → Type 0
Delivers [] bytes = bytes ≡ []
Delivers (none ∷ reads) bytes = ⊥
Delivers (some [] ∷ reads) bytes = bytes ≡ []
Delivers (some (b ∷ bs) ∷ reads) bytes =
    (rest : Bytes) × (bytes ≡ (b ∷ bs) ++ rest) × Delivers reads rest

then_more :
    (m : Result Bytes) (pre rest : Bytes)
    → m ≡ done rest
    → (m >>= λ r. done (pre ++ r)) ≡ done (pre ++ rest)
then_more m pre rest h = rw h refl

-- Below the limit all of it is read.
pub read_to_end-whole :
    (n : ℕ) (input : List (Option Bytes)) (bytes : Bytes)
    → Delivers input bytes
    → length bytes < n
    → read_to_end n input ≡ done bytes
unfolding read_to_end
read_to_end-whole zero input bytes d h = absurd (omega (arith, h))
read_to_end-whole (suc n) [] bytes d h = ap done (sym d)
read_to_end-whole (suc n) (none ∷ reads) bytes d h = absurd d
read_to_end-whole (suc n) (some [] ∷ reads) bytes d h = ap done (sym d)
read_to_end-whole (suc n) (some (b ∷ bs) ∷ reads) bytes (rest, e, d) h =
    let l = ap length e in
    let m = length-append (b ∷ bs) rest in
    let t = length-take (suc n) (b ∷ bs) (omega (arith, h, l, m)) in
    then_more (read_to_end (suc n - length (b ∷ bs)) reads) (take (suc n) (b ∷ bs)) rest
      (read_to_end-whole (suc n - length (b ∷ bs)) reads rest d (omega (arith, h, l, m)))
    ∙ ap (λ x. done (x ++ rest)) t
    ∙ ap done (sym e)

-- From the limit on, the reading stops at the limit.
pub read_to_end-cut :
    (n : ℕ) (input : List (Option Bytes)) (bytes : Bytes)
    → Delivers input bytes
    → n ≤ length bytes
    → (r : Bytes) × (read_to_end n input ≡ done r) × (length r ≡ n)
unfolding read_to_end
read_to_end-cut zero input bytes d h = ([], refl, refl)
read_to_end-cut (suc n) [] bytes d h = absurd (omega (arith, h, ap length d))
read_to_end-cut (suc n) (none ∷ reads) bytes d h = absurd d
read_to_end-cut (suc n) (some [] ∷ reads) bytes d h = absurd (omega (arith, h, ap length d))
read_to_end-cut (suc n) (some (b ∷ bs) ∷ reads) bytes (rest, e, d) h =
    let l = ap length e in
    let m = length-append (b ∷ bs) rest in
    let (r, p, q) =
      read_to_end-cut (suc n - length (b ∷ bs)) reads rest d (omega (arith, h, l, m)) in
    let a = length-append (take (suc n) (b ∷ bs)) r in
    (
      take (suc n) (b ∷ bs) ++ r,
      then_more (read_to_end (suc n - length (b ∷ bs)) reads) (take (suc n) (b ∷ bs)) r p,
      elim (Bool-cases (leb (length (b ∷ bs)) n)) [
        | inl t ↦
            let u : length (b ∷ bs) ≤ n = ground (arith, t) in
            let v = ap length (length-take (suc n) (b ∷ bs) (omega (arith, u))) in
            omega (arith, a, q, u, v)
        | inr f ↦
            let u : suc n ≤ length (b ∷ bs) = ground (arith, f) in
            let v = take-short (suc n) (b ∷ bs) u in omega (arith, a, q, u, v)
      ],
    )
