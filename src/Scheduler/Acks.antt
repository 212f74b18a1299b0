-- ===== src/Scheduler/Acks.antt =====
-- What the main thread may conclude from src/clap/plugin/command_scheduler.rs: order, and the
-- meaning of the acknowledgment that `is_acked` and `wait_for_ack` read.
use nam_plug.Prelude.{
  ℕ, ◌+◌, ◌≤◌, ◌<◌, ◌^◌, ◌≡◌, refl, true, List, [], ◌∷◌, ◌++◌, length, length-append, arith,
}
use nam_plug.Engine.{Engine, RoundTrips, Ring}
use nam_plug.Payload.{ClapParamPayload}
use nam_plug.Scheduler.{wrap64, is_acked, after_drain}
use nam_plug.Scheduler.Delivery.{queued}
use nam_plug.Scheduler.Trace.{System, initial, Reach, here, next}
use nam_plug.Scheduler.Order.{Inv, Step-Inv}

-- An element that stands at a place within a prefix of the list stands in the prefix.
prefix_holds {ℓ} :
    {A : Type ℓ} (before after xs ys : List A) (a : A)
    → before ++ (a ∷ after) ≡ xs ++ ys
    → length before < length xs
    → (rest : List A) × (xs ≡ before ++ (a ∷ rest))
prefix_holds [] after [] ys a e h = elim h [ ]
prefix_holds [] after (x ∷ xs) ys a e h = (xs, cc)
prefix_holds (b ∷ before) after [] ys a e h = elim h [ ]
prefix_holds (b ∷ before) after (x ∷ xs) ys a e h =
    let (rest, f) = prefix_holds before after xs ys a (cc) (omega arith) in (rest, cc f)

module _ {E : Engine} (R : Ring (ClapParamPayload E)) (rt : RoundTrips E) where
  initial-Inv : (q : R.Queue) → R.items q ≡ [] → Inv R rt (initial R rt q)
  initial-Inv q e = record {
    order = rw e refl;
    numbers = refl;
    processed = refl;
    ack = refl;
    covered = refl;
  }

  Reach-Inv : {s t : System R rt} → Reach R rt s t → Inv R rt s → Inv R rt t
  Reach-Inv here v = v
  Reach-Inv (next r e) v = Step-Inv R rt e (Reach-Inv r v)

  total :
      {s : System R rt}
      → Inv R rt s
      → length s.pushed ≡ length s.resolved + length (s.parked ++ queued R s.chan)
  total {s} v = rw v.order (length-append s.resolved (s.parked ++ queued R s.chan))

  reached :
      (q : R.Queue)
      → R.items q ≡ []
      → {s : System R rt} → Reach R rt (initial R rt q) s
      → Inv R rt s
  reached q e r = Reach-Inv r (initial-Inv q e)

  -- In every reachable state what was pushed is what was resolved, then what is parked, then what is
  -- queued, in the order of the pushes: nothing is lost, repeated or overtaken; the number published
  -- at the end of a drain is the consumer's own count of the resolved payloads.
  pub pushed_in_order :
      (q : R.Queue)
      → R.items q ≡ []
      → {s : System R rt} → Reach R rt (initial R rt q) s
      → (s.pushed ≡ s.resolved ++ (s.parked ++ queued R s.chan))
        × (s.chan.processed_seq ≡ wrap64 (length s.resolved))
        × ((after_drain E R s.since s.chan).last_ack ≡ s.chan.processed_seq)
  unfolding after_drain
  pushed_in_order q e {s} r =
      let v = reached q e r in (v.order, v.processed, ground (arith, v.ack, v.covered, v.processed))

  -- While fewer than 2^64 payloads were pushed, a payload whose number `is_acked` reports was
  -- resolved, with all before it: the acknowledgment never covers one that is queued or parked.
  pub is_acked-resolved :
      (q : R.Queue)
      → R.items q ≡ []
      → {s : System R rt} → Reach R rt (initial R rt q) s
      → length s.pushed < 2 ^ 64
      → (before after : List (ClapParamPayload E)) (a : ClapParamPayload E)
      → s.pushed ≡ before ++ (a ∷ after)
      → is_acked E R (length before + 1) s.chan ≡ true
      → (rest : List (ClapParamPayload E)) × (s.resolved ≡ before ++ (a ∷ rest))
  unfolding is_acked
  is_acked-resolved q e {s} r h before after a f k =
      let v = reached q e r in
      prefix_holds before after s.resolved (s.parked ++ queued R s.chan) a (cc (f, v.order))
        (ground (arith, k, v.ack, v.covered, total v))

  -- While fewer than 2^64 payloads were pushed: once the ring and the parking place are empty and
  -- the drain has published, `is_acked` holds of every number that was given out.
  pub drained_is_acked :
      (q : R.Queue)
      → R.items q ≡ []
      → {s : System R rt} → Reach R rt (initial R rt q) s
      → length s.pushed < 2 ^ 64
      → s.parked ≡ []
      → queued R s.chan ≡ []
      → s.since ≡ 0
      → (n : ℕ) → n ≤ length s.pushed
      → is_acked E R n s.chan ≡ true
  unfolding is_acked
  drained_is_acked q e {s} r h p k z n m =
      let v = reached q e r in
      let t = total v in let l = empty p k in ground (arith, v.ack, v.covered, t, l)
    where
      empty : s.parked ≡ [] → queued R s.chan ≡ [] → length (s.parked ++ queued R s.chan) ≡ 0
      empty p k = rw (p, k) refl
