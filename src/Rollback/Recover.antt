-- ===== src/Rollback/Recover.antt =====
-- The loop in the drop of src/clap/processor/rollback.rs, against the list of queued commands.
use mathlib.Core.List.{Memᴰ}
use nam_plug.Prelude.{
  ◌+◌, ◌≤◌, ◌<◌, ◌≡◌, refl, sym, ap, ◌∙◌, Bool-cases, Option, none, some, List, [], ◌∷◌, ◌++◌,
  append_assoc, append-nil, length, ltb, All, ◌⊎◌, inl, inr, arith,
}
use nam_plug.Engine.{Engine, Ring}
use nam_plug.Payload.{
  ClapParamPayload, params, load_model, load_cab_ir, set_oversample, restore_txn,
}
use nam_plug.Rollback.{PendingModel, Recovery, candidate_of, keep_newest, recover_one, recover_all}

module _ {E : Engine} where
  -- The commands that are no model, and the models, as candidates, each in their order.
  abbrev pub others : List (ClapParamPayload E) → List (ClapParamPayload E)
  others [] = []
  others (load_model p ∷ xs) = others xs
  others (params p ∷ xs) = params p ∷ others xs
  others (load_cab_ir i ∷ xs) = load_cab_ir i ∷ others xs
  others (set_oversample l r ∷ xs) = set_oversample l r ∷ others xs
  others (restore_txn t ∷ xs) = restore_txn t ∷ others xs

  abbrev pub models : List (ClapParamPayload E) → List (PendingModel E)
  models [] = []
  models (load_model p ∷ xs) = candidate_of p ∷ models xs
  models (params p ∷ xs) = models xs
  models (load_cab_ir i ∷ xs) = models xs
  models (set_oversample l r ∷ xs) = models xs
  models (restore_txn t ∷ xs) = models xs

  -- A model of at least the generation of `p` is kept.
  abbrev pub Covers : Option (PendingModel E) → PendingModel E → Type 0
  Covers o p = (m : PendingModel E) × (o ≡ some m) × (p.generation ≤ m.generation)

  pub keep_newest-Covers :
      (c : PendingModel E) (o : Option (PendingModel E))
      → Covers (keep_newest c o) c
        × ((p : PendingModel E) → Covers o p → Covers (keep_newest c o) p)
        × ((m : PendingModel E) → keep_newest c o ≡ some m → (m ≡ c) ⊎ (o ≡ some m))
  keep_newest-Covers c none = ((c, refl, omega arith), λ p (m, e, h). cc e, λ m e. inl (cc e))
  keep_newest-Covers c (some p) = elim (Bool-cases (ltb p.generation c.generation)) [
    | inl t ↦ rw t (
      (c, refl, omega arith),
      λ q (m, e, h). (c, refl, below_some p m q c e h (ground (arith, t))),
      λ m e. inl (cc e),
    )
    | inr f ↦ rw f ((p, refl, ground (arith, f)), λ q k. k, λ m e. inr e)
  ]
    where
      below_some :
          (p m q c : PendingModel E)
          → some p ≡ some m
          → q.generation ≤ m.generation
          → p.generation < c.generation
          → q.generation ≤ c.generation
      below_some p m q c e h k = let i : p.generation ≡ m.generation = cc e in omega (arith, i)

module _ {E : Engine} where
  abbrev pub recover_list : List (ClapParamPayload E) → Recovery E → Recovery E
  recover_list [] r = r
  recover_list (a ∷ xs) r = recover_list xs (recover_one a r)

  pub recover_list-counts :
      (xs : List (ClapParamPayload E)) (r : Recovery E)
      → ((recover_list xs r).staged ≡ r.staged ++ others xs)
        × ((recover_list xs r).drained ≡ r.drained + length xs)
  unfolding recover_one
  recover_list-counts [] r = (sym (append-nil r.staged), omega arith)
  recover_list-counts (a ∷ xs) r =
      let (s, d) = recover_list-counts xs (recover_one a r) in
      (s ∙ one_staged a xs r, omega (arith, d, one_drained a r))
    where
      one_staged :
          (a : ClapParamPayload E) (xs : List (ClapParamPayload E)) (r : Recovery E)
          → (recover_one a r).staged ++ others xs ≡ r.staged ++ others (a ∷ xs)
      one_staged (load_model p) xs r = refl
      one_staged (params p) xs r = append_assoc r.staged (params p ∷ []) (others xs)
      one_staged (load_cab_ir i) xs r = append_assoc r.staged (load_cab_ir i ∷ []) (others xs)
      one_staged (set_oversample x y) xs r =
          append_assoc r.staged (set_oversample x y ∷ []) (others xs)
      one_staged (restore_txn t) xs r = append_assoc r.staged (restore_txn t ∷ []) (others xs)

      one_drained :
          (a : ClapParamPayload E) (r : Recovery E) → (recover_one a r).drained ≡ r.drained + 1
      one_drained (load_model p) r = refl
      one_drained (params p) r = refl
      one_drained (load_cab_ir i) r = refl
      one_drained (set_oversample x y) r = refl
      one_drained (restore_txn t) r = refl

  -- What the newest model is after the list, against the one before it.
  pub record Newest (xs : List (ClapParamPayload E)) (o n : Option (PendingModel E)) : Type 0 where
    pub covers_queued : All (Covers n) (models xs)
    pub covers_slot : (p : PendingModel E) → Covers o p → Covers n p
    pub source : (m : PendingModel E) → n ≡ some m → Memᴰ m (models xs) ⊎ (o ≡ some m)

  Newest-model :
      (p : PendingModel E) (o n : Option (PendingModel E)) (ms : List (PendingModel E))
      → All (Covers n) ms
      → ((q : PendingModel E) → Covers (keep_newest p o) q → Covers n q)
      → ((m : PendingModel E) → n ≡ some m → Memᴰ m ms ⊎ (keep_newest p o ≡ some m))
      → All (Covers n) (p ∷ ms)
        × ((q : PendingModel E) → Covers o q → Covers n q)
        × ((m : PendingModel E) → n ≡ some m → Memᴰ m (p ∷ ms) ⊎ (o ≡ some m))
  Newest-model p o n ms a b c =
      let (x, y, z) = keep_newest-Covers p o in
      (
        (b p x, a),
        λ q h. b q (y q h),
        λ m e. elim (c m e) [
          | inl i ↦ inl (Memᴰ.tail i)
          | inr k ↦ elim (z m k) [ inl i ↦ inl (Memᴰ.head i) | inr i ↦ inr i ]
        ],
      )

  pub recover_list-Newest :
      (xs : List (ClapParamPayload E)) (r : Recovery E)
      → Newest xs r.newest (recover_list xs r).newest
  unfolding recover_one
  recover_list-Newest [] r = record {
    covers_queued = tt;
    covers_slot = λ p h. h;
    source = λ m e. inr e;
  }
  recover_list-Newest (load_model p ∷ xs) r =
      let v = recover_list-Newest xs (recover_one (load_model p) r) in
      let (a, b, c) =
        Newest-model (candidate_of p) r.newest
          (recover_list xs (recover_one (load_model p) r)).newest (models xs) v.covers_queued
          v.covers_slot v.source in
      record { covers_queued = a; covers_slot = b; source = c }
  recover_list-Newest (params p ∷ xs) r =
      let v = recover_list-Newest xs (recover_one (params p) r) in
      record { covers_queued = v.covers_queued; covers_slot = v.covers_slot; source = v.source }
  recover_list-Newest (load_cab_ir i ∷ xs) r =
      let v = recover_list-Newest xs (recover_one (load_cab_ir i) r) in
      record { covers_queued = v.covers_queued; covers_slot = v.covers_slot; source = v.source }
  recover_list-Newest (set_oversample x y ∷ xs) r =
      let v = recover_list-Newest xs (recover_one (set_oversample x y) r) in
      record { covers_queued = v.covers_queued; covers_slot = v.covers_slot; source = v.source }
  recover_list-Newest (restore_txn t ∷ xs) r =
      let v = recover_list-Newest xs (recover_one (restore_txn t) r) in
      record { covers_queued = v.covers_queued; covers_slot = v.covers_slot; source = v.source }

  module _ (R : Ring (ClapParamPayload E)) where
    -- Fuel for as many commands as are queued empties the ring.
    pub recover_all-drains :
        (xs : List (ClapParamPayload E)) (q : R.Queue) (r : Recovery E)
        → R.items q ≡ xs
        → (R.items (recover_all R (length xs) q r).0 ≡ [])
          × ((recover_all R (length xs) q r).1 ≡ recover_list xs r)
    unfolding recover_all
    recover_all-drains [] q r h = (h, refl)
    recover_all-drains (a ∷ xs) q r h = elim (R.pop_cases q) [
      | inl (e, f) ↦ cc (f, h)
      | inr (b, rest, e, f) ↦
          rw (recover_all, e)
            (let (x, y) = recover_all-drains xs rest (recover_one b r) (cc (f, h)) in
              let k : b ≡ a = cc (f, h) in (x, y ∙ ap (λ c. recover_list xs (recover_one c r)) k))
    ]
