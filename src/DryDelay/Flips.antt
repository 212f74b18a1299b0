-- ===== src/DryDelay/Flips.antt =====
-- src/clap/processor/dsp/dry_delay.rs: switches between one and two channels.
use nam_plug.Prelude.{ℕ, ◌≡◌, refl, sym, ap, ◌∙◌, Bool, true, false, List, [], ◌∷◌, take}
use nam_plug.Float.{F32}
use nam_plug.DryDelay.{
  DelayLine, Copies, overwrite, DryDelayLine, Block, mirror_if, clamped, mono_block, block_if,
  process_block,
}

module _ (L : DelayLine) where
  -- The reference: two lines that are both fed at every block, in mono with the left input.
  pub record Reference : Type 0 where
    pub left : L.Line
    pub right : L.Line

  abbrev pub right_input : Bool → Block L → List F32
  right_input true b = b.in_l
  right_input false b = b.in_r

  abbrev pub fed_if : Bool → ℕ → Block L → Reference → Reference × List F32 × List F32
  fed_if mono n b r =
      let (l, out_l) = L.process_block (take n b.in_l) r.left in
      let (r', out_r) = L.process_block (take n (right_input mono b)) r.right in
      (record { left = l; right = r' }, overwrite out_l b.out_l, overwrite out_r b.out_r)

  abbrev pub fed : Block L → Reference → Reference × List F32 × List F32
  fed b r = fed_if b.process_mono (clamped L b) b r

  -- The outputs of a run of blocks.
  abbrev pub run : List (Block L) → DryDelayLine L → List (List F32 × List F32)
  run [] d = []
  run (b ∷ bs) d = let (e, x, y) = process_block L b d in (x, y) ∷ run bs e

  abbrev pub reference_run : List (Block L) → Reference → List (List F32 × List F32)
  reference_run [] r = []
  reference_run (b ∷ bs) r = let (s, x, y) = fed b r in (x, y) ∷ reference_run bs s

  -- The two lines hold the same whenever a mono block begins.
  abbrev pub Agrees : Bool → Reference → Type 0
  Agrees true r = r.left ≡ r.right
  Agrees false r = Unit

  abbrev pub Agreeing : List (Block L) → Reference → Type 0
  Agreeing [] r = Unit
  Agreeing (b ∷ bs) r = Agrees b.process_mono r × Agreeing bs (fed b r).0

  -- The right line is only kept up in two-channel blocks; after a mono block it counts as the left one.
  abbrev pub heard : Bool → DryDelayLine L → L.Line
  heard true d = d.line_l
  heard false d = d.line_r

  abbrev pub Twin : DryDelayLine L → Reference → Type 0
  Twin d r = (d.line_l ≡ r.left) × (heard d.last_mono d ≡ r.right)

  module _ (C : Copies L) where
    mirror_if-heard :
        (m : Bool) (d : DryDelayLine L)
        → ((mirror_if L m d).line_l ≡ d.line_l) × ((mirror_if L m d).line_r ≡ heard m d)
    mirror_if-heard true d = (refl, C.copied d.line_r d.line_l)
    mirror_if-heard false d = (refl, refl)

    block_if-Twin :
        (mono : Bool) (n : ℕ) (b : Block L) (d : DryDelayLine L) (r : Reference)
        → Twin d r
        → Agrees mono r
        → let x = block_if L mono n b d in
          let y = fed_if mono n b r in Twin x.0 y.0 × (x.1 ≡ y.1) × (x.2 ≡ y.2)
    block_if-Twin true n b d r (x, y) a =
        let f = ap (λ l. L.process_block (take n b.in_l) l) (x ∙ a) in
        let g = ap (λ l. L.process_block (take n b.in_l) l) x in
        (
          (ap (λ q. q.0) g, ap (λ q. q.0) f),
          ap (λ q. overwrite q.1 b.out_l) g,
          ap (λ q. overwrite q.1 b.out_r) f,
        )
    block_if-Twin false n b d r (x, y) a =
        let (u, v) = mirror_if-heard d.last_mono d in
        let g = ap (λ l. L.process_block (take n b.in_l) l) (u ∙ x) in
        let f = ap (λ l. L.process_block (take n b.in_r) l) (v ∙ y) in
        (
          (ap (λ q. q.0) g, ap (λ q. q.0) f),
          ap (λ q. overwrite q.1 b.out_l) g,
          ap (λ q. overwrite q.1 b.out_r) f,
        )

    -- The two lines, of which the right one rests in mono, give at every block of every run what two lines
    -- give that are both fed at every block, if these two hold the same as the former at the start, and
    -- the same as one another whenever a mono block begins.
    pub run-reference_run :
        (bs : List (Block L)) (d : DryDelayLine L) (r : Reference)
        → Twin d r
        → Agreeing bs r
        → run bs d ≡ reference_run bs r
    unfolding process_block
    run-reference_run [] d r t a = refl
    run-reference_run (b ∷ bs) d r t (a, k) =
        let (x, y, z) = block_if-Twin b.process_mono (clamped L b) b d r t a in
        let e = block_if L b.process_mono (clamped L b) b d in
        let s = fed b r in
        ap (λ q. (q, e.2) ∷ run bs e.0) y
        ∙ ap (λ q. (s.1, q) ∷ run bs e.0) z
        ∙ ap (λ l. (s.1, s.2) ∷ l) (run-reference_run bs e.0 s.0 x k)

    -- The two states agree on the left line and on what counts as the right one.
    abbrev Forgotten : DryDelayLine L → DryDelayLine L → Type 0
    Forgotten d e = (d.line_l ≡ e.line_l) × (heard d.last_mono d ≡ heard e.last_mono e)

    block_if-Forgotten :
        (mono : Bool) (n : ℕ) (b : Block L) (d e : DryDelayLine L)
        → Forgotten d e
        → let x = block_if L mono n b d in
          let y = block_if L mono n b e in Forgotten x.0 y.0 × (x.1 ≡ y.1) × (x.2 ≡ y.2)
    block_if-Forgotten true n b d e (h, k) =
        let f = ap (λ l. L.process_block (take n b.in_l) l) h in
        (
          (ap (λ q. q.0) f, ap (λ q. q.0) f),
          ap (λ q. overwrite q.1 b.out_l) f,
          ap (λ q. overwrite q.1 b.out_r) f,
        )
    block_if-Forgotten false n b d e (h, k) =
        let (u, v) = mirror_if-heard d.last_mono d in
        let (w, x) = mirror_if-heard e.last_mono e in
        let g = ap (λ l. L.process_block (take n b.in_l) l) (u ∙ h ∙ sym w) in
        let f = ap (λ l. L.process_block (take n b.in_r) l) (v ∙ k ∙ sym x) in
        (
          (ap (λ q. q.0) g, ap (λ q. q.0) f),
          ap (λ q. overwrite q.1 b.out_l) g,
          ap (λ q. overwrite q.1 b.out_r) f,
        )

    run-Forgotten :
        (bs : List (Block L)) (d e : DryDelayLine L) → Forgotten d e → run bs d ≡ run bs e
    unfolding process_block
    run-Forgotten [] d e h = refl
    run-Forgotten (b ∷ bs) d e h =
        let (x, y, z) = block_if-Forgotten b.process_mono (clamped L b) b d e h in
        let p = block_if L b.process_mono (clamped L b) b d in
        let q = block_if L b.process_mono (clamped L b) b e in
        ap (λ r. (r, p.2) ∷ run bs p.0) y
        ∙ ap (λ r. (q.1, r) ∷ run bs p.0) z
        ∙ ap (λ l. (q.1, q.2) ∷ l) (run-Forgotten bs p.0 q.0 x)

    -- A mono block discards what the right line still has to put out: two states that agree on the left
    -- line, whatever their right lines hold and whatever came before, give the same outputs on both
    -- channels at the mono block and at every block of every run after it.
    pub run-forgets :
        (mono : Block L) (bs : List (Block L)) (d e : DryDelayLine L)
        → mono.process_mono ≡ true
        → d.line_l ≡ e.line_l
        → run (mono ∷ bs) d ≡ run (mono ∷ bs) e
    unfolding process_block
    run-forgets mono bs d e h k = rw h (
        let g = ap (λ l. L.process_block (take (clamped L mono) mono.in_l) l) k in
        let p = mono_block L (clamped L mono) mono d in
        let q = mono_block L (clamped L mono) mono e in
        ap (λ r. (r, p.2) ∷ run bs p.0) (ap (λ x. overwrite x.1 mono.out_l) g)
        ∙ ap (λ r. (q.1, r) ∷ run bs p.0) (ap (λ x. overwrite x.1 mono.out_r) g)
        ∙ ap (λ l. (q.1, q.2) ∷ l) (run-Forgotten bs p.0 q.0 (ap (λ x. x.0) g, ap (λ x. x.0) g)))
