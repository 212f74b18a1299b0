-- ===== src/State/Sample.antt =====
-- A JSON library at which its laws hold. It writes a state whose model has a name of one byte and a
-- digest, and which names nothing else.
use nam_plug.Prelude.{
  ℕ, zero, suc, ◌≡◌, refl, Bool, true, false, Bool-cases, inl, inr, Option, none, some, List, [],
  ◌∷◌,
}
use nam_plug.Engine.{Params}
use nam_plug.Samples.{engine, flag_as, flag_of, factor_as, OversampleFactor, off, x2, x4}
use nam_plug.Assets.{Bytes, ProcessingParams}
use nam_plug.Assets.Sample.{disk}
use nam_plug.State.{Json, Faithful, all_finite}

abbrev Saved : Type 0
Saved = ProcessingParams engine disk

abbrev factor_of : ℕ → OversampleFactor
factor_of zero = off
factor_of (suc zero) = x2
factor_of (suc (suc n)) = x4

abbrev pub packed : ℕ → Params engine → ℕ → Bytes → Bytes
packed v p c hash =
    v
    ∷ p.input_gain_db
    ∷ p.output_gain_db
    ∷ p.gate_threshold_db
    ∷ flag_as p.bypass
    ∷ flag_as p.adaptive_compute
    ∷ flag_as p.slim_override
    ∷ factor_as p.oversample
    ∷ flag_as p.activation_precision
    ∷ c
    ∷ hash

-- The model's path, name, digest and directories; the impulse response's path and digest.
abbrev encoded :
    ℕ
    → Params engine
    → Option Bytes
    → Option Bytes
    → Option Bytes
    → List Bytes
    → Option Bytes
    → Option Bytes
    → Option Bytes
encoded v p (some x) name hash dirs ir ir_hash = none
encoded v p none name hash dirs (some x) ir_hash = none
encoded v p none name hash dirs none (some x) = none
encoded v p none name hash (d ∷ ds) none none = none
encoded v p none none hash [] none none = none
encoded v p none (some []) hash [] none none = none
encoded v p none (some (c ∷ d ∷ cs)) hash [] none none = none
encoded v p none (some (c ∷ [])) none [] none none = none
encoded v p none (some (c ∷ [])) (some h) [] none none = some (packed v p c h)

abbrev decoded : Bytes → Option (ℕ × Saved)
decoded (v ∷ a ∷ b ∷ g ∷ f0 ∷ f1 ∷ f2 ∷ f3 ∷ f4 ∷ c ∷ hash) = some (
  v,
  record {
    rt = record {
      input_gain_db = a;
      output_gain_db = b;
      gate_threshold_db = g;
      bypass = flag_of f0;
      adaptive_compute = flag_of f1;
      slim_override = flag_of f2;
      oversample = factor_of f3;
      activation_precision = flag_of f4;
    };
    model_path = none;
    model_basename = some (c ∷ []);
    model_hash = some hash;
    model_search_paths = [];
    ir_path = none;
    ir_hash = none;
  },
)
decoded bytes = none

-- A state with a gain that is infinite or a NaN is one byte, which is not read back.
abbrev written_if : Bool → Option Bytes → Option Bytes
written_if true o = o
written_if false o = some (0 ∷ [])

abbrev pub json : Json engine disk
json = record {
  to_vec = λ v p. written_if (all_finite p.rt) (
      encoded v p.rt p.model_path p.model_basename p.model_hash p.model_search_paths p.ir_path
        p.ir_hash);
  envelope_from = decoded;
  has_version = λ bytes. some true;
  params_from = λ bytes. none;
}

flag_back : (b : Bool) → flag_of (flag_as b) ≡ b
flag_back false = refl
flag_back true = refl

factor_back : (f : OversampleFactor) → factor_of (factor_as f) ≡ f
factor_back off = refl
factor_back x2 = refl
factor_back x4 = refl

decoded-encoded :
    (v : ℕ) (p : Params engine) (path name hash : Option Bytes) (dirs : List Bytes)
    (ir ir_hash : Option Bytes) (bytes : Bytes)
    → encoded v p path name hash dirs ir ir_hash ≡ some bytes
    → decoded bytes
      ≡ some (
        v,
        record {
          rt = p;
          model_path = path;
          model_basename = name;
          model_hash = hash;
          model_search_paths = dirs;
          ir_path = ir;
          ir_hash = ir_hash;
        },
      )
decoded-encoded v p (some x) name hash dirs ir ir_hash bytes h = cc h
decoded-encoded v p none name hash dirs (some x) ir_hash bytes h = cc h
decoded-encoded v p none name hash dirs none (some x) bytes h = cc h
decoded-encoded v p none name hash (d ∷ ds) none none bytes h = cc h
decoded-encoded v p none none hash [] none none bytes h = cc h
decoded-encoded v p none (some []) hash [] none none bytes h = cc h
decoded-encoded v p none (some (c ∷ d ∷ cs)) hash [] none none bytes h = cc h
decoded-encoded v p none (some (c ∷ [])) none [] none none bytes h = cc h
decoded-encoded v p none (some (c ∷ [])) (some x) [] none none bytes h =
    let k : packed v p c x ≡ bytes = cc h in
    rw
      (
        ← k,
        flag_back p.bypass,
        flag_back p.adaptive_compute,
        flag_back p.slim_override,
        factor_back p.oversample,
        flag_back p.activation_precision,
      )
      refl

written_if-true :
    (b : Bool) (o : Option Bytes) (bytes : Bytes)
    → b ≡ true
    → written_if b o ≡ some bytes
    → o ≡ some bytes
written_if-true true o bytes h k = k
written_if-true false o bytes h k = cc h

written_if-false :
    (b : Bool) (o : Option Bytes) (bytes : Bytes)
    → b ≡ false
    → written_if b o ≡ some bytes
    → bytes ≡ 0 ∷ []
written_if-false true o bytes h k = cc h
written_if-false false o bytes h k = cc k

pub json-Faithful : Faithful json
json-Faithful = record {
  round_trip = λ v p bytes g h.
      decoded-encoded v p.rt p.model_path p.model_basename p.model_hash p.model_search_paths
        p.ir_path p.ir_hash bytes (written_if-true (all_finite p.rt) _ bytes g h);
  null = λ v p bytes g h. rw (written_if-false (all_finite p.rt) _ bytes g h) (refl, refl);
  not_empty = λ v p h. elim (Bool-cases (all_finite p.rt)) [
    | inl t ↦
        let k =
          decoded-encoded v p.rt p.model_path p.model_basename p.model_hash p.model_search_paths
            p.ir_path p.ir_hash [] (written_if-true (all_finite p.rt) _ [] t h) in
        cc k
    | inr f ↦ let k = written_if-false (all_finite p.rt) _ [] f h in cc k
  ];
}
