-- ===== src/Scheduler/Burst.antt =====
-- Coalescing end to end in src/clap/plugin/command_scheduler.rs: `push_params`, then a flush.
use nam_plug.Prelude.{
  ◌+◌, ◌<◌, ◌≡◌, refl, ap, ◌≤◌, none, List, [], ◌∷◌, ◌++◌, length, inl, inr, arith,
}
use nam_plug.Engine.{Engine, Params, RoundTrips, Ring}
use nam_plug.Payload.{ClapParamPayload, params}
use nam_plug.Scheduler.{Channel, wrap64, take_snapshot, push_params, force_flush}
use nam_plug.Scheduler.Coalesce.{take_snapshot-restore_snapshot}
use nam_plug.Scheduler.Delivery.{queued, pending, IsFull, force_flush-cases}

module _ {E : Engine} (R : Ring (ClapParamPayload E)) where
  -- A burst of snapshots, the last first.
  abbrev pub burst : List (Params E) → Channel E R → Channel E R
  burst [] c = c
  burst (p ∷ ps) c = (push_params E R p (burst ps c)).0

  burst_keeps :
      (ps : List (Params E)) (c : Channel E R)
      → ((burst ps c).queue ≡ c.queue) × ((burst ps c).next_seq ≡ c.next_seq)
  unfolding push_params
  burst_keeps [] c = (refl, refl)
  burst_keeps (p ∷ ps) c = burst_keeps ps c

  burst-pending :
      (rt : RoundTrips E) (p : Params E) (ps : List (Params E)) (c : Channel E R)
      → pending R (burst (p ∷ ps) c) ≡ params p ∷ []
  unfolding push_params
  burst-pending rt p ps c = rw (take_snapshot-restore_snapshot E rt p (burst ps c).coalescing) refl

  -- A flush of a channel in which one snapshot is pending.
  flush_one :
      (rt : RoundTrips E) (a : ClapParamPayload E) (c x : Channel E R)
      → queued R x ≡ queued R c
      → x.next_seq ≡ c.next_seq
      → pending R x ≡ a ∷ []
      → length (queued R c) < R.capacity
      → let (d, r) = force_flush E R x in
        (queued R d ≡ queued R c ++ (a ∷ []))
        × (wrap64 d.next_seq ≡ wrap64 (c.next_seq + 1))
        × (take_snapshot E d.coalescing ≡ (none, d.coalescing))
  flush_one rt a c x k n h l = elim (force_flush-cases R rt x) [
    | inl (d, e, f) ↦ elim (clash f.no_room (ap length k)) [ ]
    | inr (d, m, e, f) ↦
        rw e (rw (f.appends.items, h, k) refl, rw (f.appends.numbers, h, n) refl, f.clean)
  ]
    where
      clash : IsFull R x → length (queued R x) ≡ length (queued R c) → 1 ≤ 0
      clash f k = omega arith

  -- However many snapshots were pushed since the last flush, a flush with room in the ring queues
  -- exactly one command, which is the last snapshot, takes one sequence number for it, and leaves
  -- nothing pending.
  pub burst_delivers_last :
      (rt : RoundTrips E) (p : Params E) (ps : List (Params E)) (c : Channel E R)
      → length (queued R c) < R.capacity
      → let (d, r) = force_flush E R (burst (p ∷ ps) c) in
        (queued R d ≡ queued R c ++ (params p ∷ []))
        × (wrap64 d.next_seq ≡ wrap64 (c.next_seq + 1))
        × (take_snapshot E d.coalescing ≡ (none, d.coalescing))
  burst_delivers_last rt p ps c h =
      let (k, n) = burst_keeps (p ∷ ps) c in
      flush_one rt (params p) c (burst (p ∷ ps) c) (ap R.items k) n (burst-pending rt p ps c) h
