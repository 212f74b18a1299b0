-- ===== src/Scheduler/Order.antt =====
-- Order and acknowledgment over whole runs of src/clap/plugin/command_scheduler.rs.
use nam_plug.Prelude.{
  ◌+◌, ◌≡◌, refl, ap, some, none, List, [], ◌∷◌, ◌++◌, append_assoc, length, length-append, inl,
  inr, arith,
}
use nam_plug.Engine.{Engine, Params, RoundTrips, Ring}
use nam_plug.Payload.{ClapParamPayload}
use nam_plug.Scheduler.{
  Channel, wrap64, push_params, force_flush, try_push_command, new_consumer, pop_boxed,
  rollback_last_pop, advance_pending, ack_processed, after_drain, resolve_parked,
}
use nam_plug.Scheduler.Delivery.{Appends, queued, flushed, sent, flushed-Appends, sent-Appends}
use nam_plug.Scheduler.Trace.{
  System, Step, coalesces, flushes, commands, resolves, parks, settles, publishes, deactivates,
  activates,
}

module _ {E : Engine} (R : Ring (ClapParamPayload E)) where
  popped_none : (c : Channel E R) → R.pop c.queue ≡ none → pop_boxed E R c ≡ none
  unfolding pop_boxed
  popped_none c e = rw (pop_boxed, e) refl

  popped_some :
      (c : Channel E R) {a : ClapParamPayload E} {q : R.Queue}
      → R.pop c.queue ≡ some (a, q)
      → pop_boxed E R c
        ≡ some (a, record c { queue = q; processed_seq = wrap64 (c.processed_seq + 1) })
  unfolding pop_boxed
  popped_some c e = rw (pop_boxed, e) refl

  -- Of one pop.
  pop_boxed_lem :
      (c d : Channel E R) (a : ClapParamPayload E)
      → pop_boxed E R c ≡ some (a, d)
      → (queued R c ≡ a ∷ queued R d)
        × (d.next_seq ≡ c.next_seq)
        × (d.last_ack ≡ c.last_ack)
        × (d.processed_seq ≡ wrap64 (c.processed_seq + 1))
  pop_boxed_lem c d a h = elim (R.pop_cases c.queue) [
    | inl (e, f) ↦ cc (h, popped_none c e)
    | inr (b, q, e, f) ↦ ground (arith, f, h, popped_some c e)
  ]

module _ {E : Engine} (R : Ring (ClapParamPayload E)) (rt : RoundTrips E) where
  pub record Inv (s : System R rt) : Type 0 where
    pub order : s.pushed ≡ s.resolved ++ (s.parked ++ queued R s.chan)
    pub numbers : wrap64 s.chan.next_seq ≡ wrap64 (length s.pushed)
    pub processed : s.chan.processed_seq ≡ wrap64 (length s.resolved)
    pub ack : s.chan.last_ack ≡ wrap64 s.acked
    pub covered : s.acked + s.since ≡ length s.resolved

  Appends-Inv :
      (s : System R rt) (d : Channel E R) (new : List (ClapParamPayload E))
      → Inv s
      → Appends R s.chan d new
      → Inv (record s { chan = d; pushed = s.pushed ++ new })
  Appends-Inv s d new v h = record {
    order =
        rw
          (
            v.order,
            h.items,
            append_assoc s.resolved (s.parked ++ queued R s.chan) new,
            append_assoc s.parked (queued R s.chan) new,
          )
          refl;
    numbers = rw (h.numbers, length-append s.pushed new) (omega (arith, v.numbers));
    processed = rw h.processed v.processed;
    ack = rw h.ack v.ack;
    covered = v.covered;
  }

  abbrev Popped : System R rt → Channel E R → ClapParamPayload E → Type 0
  Popped s c a =
      (s.pushed ≡ s.resolved ++ (a ∷ queued R c))
      × (wrap64 c.next_seq ≡ wrap64 (length s.pushed))
      × (c.last_ack ≡ wrap64 s.acked)
      × (c.processed_seq ≡ wrap64 (length s.resolved + 1))

  Inv-Popped :
      (s : System R rt) (c : Channel E R) (a : ClapParamPayload E)
      → Inv s
      → s.parked ≡ []
      → pop_boxed E R s.chan ≡ some (a, c)
      → Popped s c a
  Inv-Popped s c a v h e =
      let (i, n, l, p) = pop_boxed_lem R s.chan c a e in
      (rw (v.order, h, i) refl, rw n v.numbers, rw l v.ack, rw p (omega (arith, v.processed)))

  resolves-Inv :
      (s : System R rt) (c : Channel E R) (a : ClapParamPayload E)
      → Inv s
      → s.parked ≡ []
      → Popped s c a
      → Inv (record s { chan = c; resolved = s.resolved ++ (a ∷ []); since = s.since + 1 })
  resolves-Inv s c a v h (o, n, l, p) = record {
    order = rw (o, h, append_assoc s.resolved (a ∷ []) (queued R c)) refl;
    numbers = n;
    processed = rw (length-append s.resolved (a ∷ [])) p;
    ack = l;
    covered = rw (length-append s.resolved (a ∷ [])) (omega (arith, v.covered));
  }

  parks-Inv :
      (s : System R rt) (c : Channel E R) (a : ClapParamPayload E)
      → Inv s
      → Popped s c a
      → Inv (record s { chan = rollback_last_pop E R c; parked = a ∷ [] })
  unfolding rollback_last_pop
  parks-Inv s c a v (o, n, l, p) = record {
    order = o;
    numbers = n;
    processed = rw p (omega arith);
    ack = l;
    covered = v.covered;
  }

  settles-Inv :
      (s : System R rt) (a : ClapParamPayload E)
      → Inv s
      → s.parked ≡ a ∷ []
      → Inv (record s {
        chan = advance_pending E R s.chan;
        resolved = s.resolved ++ (a ∷ []);
        parked = [];
        since = s.since + 1;
      })
  unfolding advance_pending
  settles-Inv s a v h = record {
    order = rw (v.order, h, append_assoc s.resolved (a ∷ []) (queued R s.chan)) refl;
    numbers = v.numbers;
    processed = rw (v.processed, length-append s.resolved (a ∷ [])) (omega arith);
    ack = v.ack;
    covered = rw (length-append s.resolved (a ∷ [])) (omega (arith, v.covered));
  }

  publishes-Inv :
      (s : System R rt)
      → Inv s
      → Inv
          (record s { chan = after_drain E R s.since s.chan; acked = length s.resolved; since = 0 })
  unfolding after_drain
  publishes-Inv s v = record {
    order = ground (arith, v.order);
    numbers = ground (arith, v.numbers);
    processed = ground (arith, v.processed);
    ack = ground (arith, v.ack, v.covered);
    covered = omega arith;
  }

  deactivates-Inv :
      (s : System R rt) (a : ClapParamPayload E)
      → Inv s
      → s.parked ≡ a ∷ []
      → s.since ≡ 0
      → Inv (record s {
        chan = resolve_parked E R s.chan;
        resolved = s.resolved ++ (a ∷ []);
        parked = [];
        acked = length s.resolved + 1;
      })
  unfolding resolve_parked advance_pending ack_processed
  deactivates-Inv s a v h z = record {
    order = rw (v.order, h, append_assoc s.resolved (a ∷ []) (queued R s.chan)) refl;
    numbers = v.numbers;
    processed = rw (v.processed, length-append s.resolved (a ∷ [])) (omega arith);
    ack = rw v.processed (omega arith);
    covered = rw (length-append s.resolved (a ∷ [])) (omega (arith, v.covered));
  }

  activates-Inv :
      (s : System R rt) → Inv s → s.since ≡ 0 → Inv (record s { chan = new_consumer E R s.chan })
  unfolding new_consumer
  activates-Inv s v z = record {
    order = v.order;
    numbers = v.numbers;
    processed = rw v.ack (ap wrap64 (omega (arith, v.covered)));
    ack = v.ack;
    covered = v.covered;
  }

  coalesces-Inv :
      (s : System R rt) (p : Params E)
      → Inv s
      → Inv (record s { chan = (push_params E R p s.chan).0 })
  unfolding push_params
  coalesces-Inv s p v = record {
    order = v.order;
    numbers = v.numbers;
    processed = v.processed;
    ack = v.ack;
    covered = v.covered;
  }

  pub Step-Inv : {s t : System R rt} → Step R rt s t → Inv s → Inv t
  Step-Inv {s} (coalesces p) v = coalesces-Inv s p v
  Step-Inv {s} flushes v =
      Appends-Inv s (force_flush E R s.chan).0 (flushed R rt s.chan) v (flushed-Appends R rt s.chan)
  Step-Inv {s} (commands a) v =
      Appends-Inv s (try_push_command E R a s.chan).0 (sent R rt a s.chan) v
        (sent-Appends R rt a s.chan)
  Step-Inv {s} (resolves a c h e) v = resolves-Inv s c a v h (Inv-Popped s c a v h e)
  Step-Inv {s} (parks a c h e) v = parks-Inv s c a v (Inv-Popped s c a v h e)
  Step-Inv {s} (settles a h) v = settles-Inv s a v h
  Step-Inv {s} publishes v = publishes-Inv s v
  Step-Inv {s} (deactivates a h z) v = deactivates-Inv s a v h z
  Step-Inv {s} (activates h z) v = activates-Inv s v z
