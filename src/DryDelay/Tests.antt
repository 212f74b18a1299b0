-- ===== src/DryDelay/Tests.antt =====
-- A line that delays by two samples, two channels that agree, and a switch to mono and back.
use nam_plug.Prelude.{ℕ, ◌≡◌, refl, Bool, true, false, List, [], ◌∷◌, ◌++◌, take}
use nam_plug.Assets.Sample.{repeat}
use nam_plug.DryDelay.{DelayLine, Copies, DryDelayLine, Block}
use nam_plug.DryDelay.Flips.{Reference, run, reference_run, run-reference_run, run-forgets}

-- A line is its history, oldest first; the delay is the history's length.
abbrev shift : List ℕ → List ℕ → List ℕ × List ℕ
shift [] line = (line, [])
shift (x ∷ xs) [] = ([], x ∷ xs)
shift (x ∷ xs) (h ∷ hs) = let (l, out) = shift xs (hs ++ (x ∷ [])) in (l, h ∷ out)

abbrev line : DelayLine
line = record {
  Line = List ℕ;
  with_capacity = λ capacity delay. repeat delay 0;
  set_delay = λ delay l. take delay l;
  reset = λ l. l;
  process_block = shift;
  copy_state_from = λ dst src. src;
}

line-Copies : Copies line
line-Copies = record { copied = λ dst src. refl }

abbrev block : Bool → List ℕ → List ℕ → Block line
block mono l r = record {
  in_l = l;
  in_r = r;
  out_l = 0 ∷ 0 ∷ [];
  out_r = 0 ∷ 0 ∷ [];
  n = 2;
  process_mono = mono;
}

abbrev fresh : DryDelayLine line
fresh = record { line_l = 0 ∷ 0 ∷ []; line_r = 0 ∷ 0 ∷ []; last_mono = false }

abbrev both : Reference line
both = record { left = 0 ∷ 0 ∷ []; right = 0 ∷ 0 ∷ [] }

abbrev blocks : List (Block line)
blocks =
    block false (1 ∷ 2 ∷ []) (1 ∷ 2 ∷ [])
    ∷ block true (3 ∷ 4 ∷ []) (9 ∷ 9 ∷ [])
    ∷ block false (5 ∷ 6 ∷ []) (7 ∷ 8 ∷ [])
    ∷ []

run-reference_run_example : run line blocks fresh ≡ reference_run line blocks both
run-reference_run_example =
    run-reference_run line line-Copies blocks fresh both (refl, refl) (tt, (refl, (tt, tt)))

-- The right line still holds 8 and 9, or nothing.
run-forgets_example :
    run line
      (block true (3 ∷ 4 ∷ []) (9 ∷ 9 ∷ []) ∷ block false (5 ∷ 6 ∷ []) (7 ∷ 8 ∷ []) ∷ [])
      (record fresh { line_r = 8 ∷ 9 ∷ [] })
    ≡ run line
        (block true (3 ∷ 4 ∷ []) (9 ∷ 9 ∷ []) ∷ block false (5 ∷ 6 ∷ []) (7 ∷ 8 ∷ []) ∷ [])
        fresh
run-forgets_example =
    run-forgets line line-Copies (block true (3 ∷ 4 ∷ []) (9 ∷ 9 ∷ []))
      (block false (5 ∷ 6 ∷ []) (7 ∷ 8 ∷ []) ∷ []) (record fresh { line_r = 8 ∷ 9 ∷ [] }) fresh refl
      refl
