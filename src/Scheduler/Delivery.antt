-- ===== src/Scheduler/Delivery.antt =====
-- What one call of the producer does to the ring (src/clap/plugin/command_scheduler.rs).
use nam_plug.Prelude.{
  ℕ, ◌+◌, ◌≤◌, ◌<◌, ◌≡◌, refl, ap, sym, Option, none, some, List, [], ◌∷◌, ◌++◌, append_assoc,
  append-nil, append_assoc, length-append, inl, inr, ◌⊎◌, length, length-append, arith,
}
use nam_plug.Engine.{Engine, Params, RoundTrips, Ring}
use nam_plug.Payload.{ClapParamPayload, params}
use nam_plug.Scheduler.{
  Channel, Pushed, ok, full, wrap64, take_snapshot, restore_snapshot, push_payload, force_flush,
  try_push_command,
}
use nam_plug.Scheduler.Coalesce.{take_snapshot-cases, take_snapshot-restore_snapshot}

abbrev if_ok {ℓ} : {A : Type ℓ} → Pushed → A → A → A
if_ok (ok _) x y = x
if_ok full x y = y

pub wrap64-wrap64 : (n : ℕ) → wrap64 (wrap64 n) ≡ wrap64 n
wrap64-wrap64 n = omega arith

module _ {E : Engine} (R : Ring (ClapParamPayload E)) where
  abbrev pub Chan : Type 0
  Chan = Channel E R

  abbrev pub queued : Chan → List (ClapParamPayload E)
  queued c = R.items c.queue

  -- The snapshot that waits in the coalescing buffer, as the payload that a flush pushes.
  abbrev pub as_payload : Option (Params E) → List (ClapParamPayload E)
  as_payload none = []
  as_payload (some p) = params p ∷ []

  abbrev pub pending : Chan → List (ClapParamPayload E)
  pending c = as_payload (take_snapshot E c.coalescing).0

  -- `d` is `c` with `new` queued behind what was there, one sequence number for each item.
  pub record Appends (c d : Chan) (new : List (ClapParamPayload E)) : Type 0 where
    pub items : queued d ≡ queued c ++ new
    pub numbers : wrap64 d.next_seq ≡ wrap64 (c.next_seq + length new)
    pub ack : d.last_ack ≡ c.last_ack
    pub processed : d.processed_seq ≡ c.processed_seq

  abbrev pub IsFull : Chan → Type 0
  IsFull c = R.capacity ≤ length (queued c)

  -- Of one push: queued with the number after the last one, or refused by a full ring.
  pub push_payload-cases :
      (a : ClapParamPayload E) (c : Chan)
      → ((push_payload E R a c ≡ (c, full)) × IsFull c)
        ⊎ ((d : Chan) × (push_payload E R a c ≡ (d, ok (wrap64 (c.next_seq + 1))))
            × (length (queued c) < R.capacity)
            × (queued d ≡ queued c ++ (a ∷ []))
            × (d.next_seq ≡ wrap64 (c.next_seq + 1))
            × (d.last_ack ≡ c.last_ack)
            × (d.processed_seq ≡ c.processed_seq)
            × (d.coalescing ≡ c.coalescing))
  unfolding push_payload
  push_payload-cases a c = elim (R.push_cases c.queue a) [
    | inl (e, h) ↦ inl (rw (e, push_payload) refl, h)
    | inr (q, e, h, i) ↦ inr (
      record c { queue = q; next_seq = wrap64 (c.next_seq + 1) },
      rw (e, push_payload) refl,
      h,
      i,
      refl,
      refl,
      refl,
      refl,
    )
  ]

  Appends-one :
      {c d x : Chan} (new : List (ClapParamPayload E)) (a : ClapParamPayload E)
      → Appends c d new
      → queued x ≡ queued d ++ (a ∷ [])
      → x.next_seq ≡ wrap64 (d.next_seq + 1)
      → x.last_ack ≡ d.last_ack
      → x.processed_seq ≡ d.processed_seq
      → Appends c x (new ++ (a ∷ []))
  Appends-one {c} {d} {x} new a h i j k l = record {
    items = rw (i, h.items) (append_assoc (queued c) new (a ∷ []));
    numbers = rw (j, length-append new (a ∷ [])) (omega (arith, h.numbers));
    ack = cc (k, h.ack);
    processed = cc (l, h.processed);
  }

  -- Of one flush: refused by a full ring with the snapshot kept, or what was pending is queued.
  pub record Refused (c d : Chan) : Type 0 where
    pub no_room : IsFull c
    pub items : queued d ≡ queued c
    pub numbers : d.next_seq ≡ c.next_seq
    pub ack : d.last_ack ≡ c.last_ack
    pub processed : d.processed_seq ≡ c.processed_seq
    pub kept : pending d ≡ pending c
    pub waiting : length (pending d) ≡ 1

  -- Of one flush that went through: what was pending is queued, and nothing is left.
  pub record Flushed (c d : Chan) : Type 0 where
    pub appends : Appends c d (pending c)
    pub clean : take_snapshot E d.coalescing ≡ (none, d.coalescing)

  Flushed-none : (c : Chan) → take_snapshot E c.coalescing ≡ (none, c.coalescing) → Flushed c c
  Flushed-none c e = record {
    appends = record {
      items = rw (e, append-nil) refl;
      numbers = rw e (ap wrap64 (omega arith));
      ack = refl;
      processed = refl;
    };
    clean = e;
  }

  module _ (rt : RoundTrips E) where
    pub force_flush-cases :
        (c : Chan)
        → ((d : Chan) × (force_flush E R c ≡ (d, full)) × Refused c d)
          ⊎ ((d : Chan) × (n : ℕ) × (force_flush E R c ≡ (d, ok n)) × Flushed c d)
    unfolding force_flush
    force_flush-cases c = elim (take_snapshot-cases E c.coalescing) [
      | inl e ↦ inr (c, 0, rw (force_flush, e) refl, Flushed-none c e)
      | inr (p, x, e, f) ↦ elim (push_payload-cases (params p) (record c { coalescing = x })) [
        | inl (g, h) ↦ inl (
          record c { coalescing = restore_snapshot E p x },
          rw (force_flush, e, g) refl,
          record {
            no_room = h;
            items = refl;
            numbers = refl;
            ack = refl;
            processed = refl;
            kept = rw (e, take_snapshot-restore_snapshot E rt p x) refl;
            waiting = rw (take_snapshot-restore_snapshot E rt p x) refl;
          },
        )
        | inr (d, g, h, i, j, k, l, m) ↦ inr (
          d,
          wrap64 (c.next_seq + 1),
          rw (force_flush, e, g) refl,
          record {
            appends = record {
              items = rw (i, e) refl;
              numbers = rw (j, e) (wrap64-wrap64 (c.next_seq + 1));
              ack = k;
              processed = l;
            };
            clean = rw (m, f) refl;
          },
        )
      ]
    ]

    -- The three outcomes of a push behind a flush.
    pub data Placed (a : ClapParamPayload E) (c : Chan) : Chan → Pushed → Type 0 where
      placed :
          {d : Chan} {seq : ℕ}
          → Appends c d (pending c ++ (a ∷ []))
          → take_snapshot E d.coalescing ≡ (none, d.coalescing)
          → seq ≡ d.next_seq
          → Placed a c d (ok seq)
      refused : {d : Chan} → Refused c d → Placed a c d full
      crowded : {d : Chan} → Flushed c d → IsFull d → Placed a c d full

    -- `try_push_command` queues the command behind all that was queued and behind the pending
    -- snapshot, each with the next number and nothing left pending; or it says `full` and does not
    -- queue the command, and then the snapshot is still pending or took the last place.
    pub try_push_command-Placed :
        (a : ClapParamPayload E) (c : Chan)
        → Placed a c (try_push_command E R a c).0 (try_push_command E R a c).1
    unfolding try_push_command
    try_push_command-Placed a c = elim (force_flush-cases c) [
      | inl (d, e, h) ↦ rw (try_push_command, e) (refused h)
      | inr (d, n, e, h) ↦ elim (push_payload-cases a d) [
        | inl (g, f) ↦ rw (try_push_command, e, g) (crowded h f)
        | inr (x, g, f, i, j, k, l, m) ↦
            rw (try_push_command, e, g)
              (placed (Appends-one (pending c) a h.appends i j k l) (rw m h.clean) (sym j))
      ]
    ]

    -- The payloads that a call of the producer has put into the ring, by its answer.
    abbrev pub flushed : Chan → List (ClapParamPayload E)
    flushed c = if_ok (force_flush E R c).1 (pending c) []

    abbrev pub sent : ClapParamPayload E → Chan → List (ClapParamPayload E)
    sent a c = if_ok (try_push_command E R a c).1 (pending c ++ (a ∷ [])) (flushed c)

    Refused-Appends : {c d : Chan} → Refused c d → Appends c d []
    Refused-Appends {c} {d} h = record {
      items = rw (h.items, append-nil) refl;
      numbers = rw h.numbers (ap wrap64 (omega arith));
      ack = h.ack;
      processed = h.processed;
    }

    pub flushed-Appends : (c : Chan) → Appends c (force_flush E R c).0 (flushed c)
    flushed-Appends c = elim (force_flush-cases c) [
      | inl (d, e, h) ↦ rw e (Refused-Appends h)
      | inr (d, n, e, h) ↦ rw e h.appends
    ]

    pub sent-Appends :
        (a : ClapParamPayload E) (c : Chan) → Appends c (try_push_command E R a c).0 (sent a c)
    unfolding try_push_command
    sent-Appends a c = elim (force_flush-cases c) [
      | inl (d, e, h) ↦ rw (try_push_command, e) (Refused-Appends h)
      | inr (d, n, e, h) ↦ elim (push_payload-cases a d) [
        | inl (g, f) ↦ rw (try_push_command, e, g) h.appends
        | inr (x, g, f, i, j, k, l, m) ↦
            rw (try_push_command, e, g) (Appends-one (pending c) a h.appends i j k l)
      ]
    ]
