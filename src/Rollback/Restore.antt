-- ===== src/Rollback/Restore.antt =====
-- src/clap/processor/rollback.rs: what is in the shared state after the guard is dropped or defused.
use nam_plug.Prelude.{
  ◌+◌, ◌≡◌, refl, sym, ap, ◌∙◌, Option, none, some, List, [], ◌∷◌, ◌++◌, length, All, inl, inr,
  arith, Option-cases,
}
use nam_plug.Engine.{Engine, Ring}
use nam_plug.Dsp.{Dsp, Factors}
use nam_plug.Restart.{PendingRestartOs, no_restart, pending, encode, take, decode-encode}
use nam_plug.Payload.{ClapParamPayload}
use nam_plug.Scheduler.{wrap64}
use nam_plug.Rollback.{
  Cold, Guard, Moved, PendingModel, defuse, drop_guard, failed, keep_newest, keep_some, put_back,
  held_restart, extract, extracted, give_up, give_up_late, restart_raw, recover_all,
  recover_commands,
}
use nam_plug.Rollback.Recover.{
  Covers, Newest, keep_newest-Covers, models, others, recover_all-drains, recover_list-counts,
  recover_list-Newest,
}

module _ {E : Engine} where
  All-Covers :
      (n o : Option (PendingModel E)) (ms : List (PendingModel E))
      → ((p : PendingModel E) → Covers n p → Covers o p)
      → All (Covers n) ms
      → All (Covers o) ms
  All-Covers n o [] f a = tt
  All-Covers n o (p ∷ ms) f (x, a) = (f p x, All-Covers n o ms f a)

  keep_some-Newest :
      (xs : List (ClapParamPayload E)) (n o : Option (PendingModel E))
      → Newest xs none n
      → Newest xs o (keep_some n o)
  keep_some-Newest xs none o v = record {
    covers_queued = All-Covers none o (models xs) (λ p (m, e, h). cc e) v.covers_queued;
    covers_slot = λ p h. h;
    source = λ m e. inr e;
  }
  keep_some-Newest xs (some m) o v =
      let ((k, e, h), y, z) = keep_newest-Covers m o in
      record {
        covers_queued =
            All-Covers (some m) (keep_newest m o) (models xs)
              (λ p (l, f, i).
                let j : m.generation ≡ l.generation = cc f in (k, e, omega (arith, h, i, j)))
              v.covers_queued;
        covers_slot = y;
        source = λ l f. elim (z l f) [
          | inl i ↦ elim (v.source l (cc i)) [ inl j ↦ inl j | inr j ↦ cc j ]
          | inr i ↦ inr i
        ];
      }

module _ {E : Engine} (R : Ring (ClapParamPayload E)) (M : Moved) where
  -- Every queued command is accounted for after `c`: the ring is empty and back in its slot.
  pub record Recovered (rx : R.Queue) (c d : Cold R M) : Type 0 where
    pub emptied : (q : R.Queue) × (d.param_rx ≡ some q) × (R.items q ≡ [])
    pub replayed : d.recovered_commands ≡ others (R.items rx) ++ c.recovered_commands
    pub resolved : d.cmd_last_ack ≡ wrap64 (c.cmd_last_ack + length (R.items rx))
    pub newest : Newest (R.items rx) c.pending_model d.pending_model

  recover_commands-Recovered :
      (rx : R.Queue) (c : Cold R M) → Recovered rx c (recover_commands R M rx c)
  unfolding recover_commands
  recover_commands-Recovered rx c =
      let (e, f) =
        recover_all-drains R (R.items rx) rx (record { staged = []; newest = none; drained = 0 })
          refl in
      let (s, d) =
        recover_list-counts (R.items rx) (record { staged = []; newest = none; drained = 0 }) in
      record {
        emptied = (_, refl, e);
        replayed =
            ap (λ x. x.staged ++ c.recovered_commands) f ∙ ap (λ x. x ++ c.recovered_commands) s;
        resolved =
            ap (λ x. wrap64 (c.cmd_last_ack + x.drained)) f
            ∙ ap (λ x. wrap64 (c.cmd_last_ack + x)) (d ∙ omega arith);
        newest =
            keep_some-Newest (R.items rx)
              (recover_all R (length (R.items rx)) rx
                (record { staged = []; newest = none; drained = 0 })).1.newest
              c.pending_model
              (rw f (
                recover_list-Newest (R.items rx)
                  (record { staged = []; newest = none; drained = 0 })));
      }

  -- When a guard that holds the command ring is dropped, the ring is back in its slot and empty; its
  -- commands that are no model stand before the ones already recovered, in their order; the
  -- acknowledged count has advanced, modulo 2 ^ 64, by as many as were queued; the pending model has
  -- at least the generation of every queued model and of the one pending before, and is one of
  -- these. Dropping what the drop left changes nothing.
  pub drop_guard-Recovered :
      (D : Dsp E) (g : Guard R M) (c : Cold R M) (rx : R.Queue)
      → g.param_rx ≡ some rx
      → Recovered rx c (drop_guard R M D g c).1
        × (drop_guard R M D (drop_guard R M D g c).0 (drop_guard R M D g c).1
            ≡ drop_guard R M D g c)
  unfolding drop_guard
  drop_guard-Recovered D g c rx h =
      rw (drop_guard, h)
        (let v = recover_commands-Recovered rx (record c {
          pending_restart_os_factor =
              restart_raw R M D g.pending_restart_os_factor c.pending_restart_os_factor;
          slimmable_rx = put_back g.slimmable_rx c.slimmable_rx;
          gc_tx = put_back g.gc_tx c.gc_tx;
        }) in
          (
            record {
              emptied = v.emptied;
              replayed = v.replayed;
              resolved = v.resolved;
              newest = v.newest;
            },
            refl,
          ))

  -- When the guard holds the command ring but no garbage ring, `defuse` fails and the command ring
  -- does not come back: its slot, the recovered commands and the acknowledged count are those before
  -- the call.
  pub defuse-loses :
      (D : Dsp E) (g : Guard R M) (c : Cold R M) (rx : R.Queue)
      → g.param_rx ≡ some rx
      → g.gc_tx ≡ none
      → (d : Cold R M) × (defuse R M D g c ≡ failed d)
        × (d.param_rx ≡ c.param_rx)
        × (d.recovered_commands ≡ c.recovered_commands)
        × (d.cmd_last_ack ≡ c.cmd_last_ack)
  unfolding defuse
  defuse-loses D g c rx h k = rw (defuse, h, k) (_, refl, refl, refl, refl)

  -- The state `d` holds the pending restart and the ends of the rings of `c`.
  pub record GivenBack (c d : Cold R M) : Type 0 where
    pub restart : d.pending_restart_os_factor ≡ c.pending_restart_os_factor
    pub slimmable_rx : d.slimmable_rx ≡ c.slimmable_rx
    pub gc_tx : d.gc_tx ≡ c.gc_tx
    pub commands : (rx : R.Queue) → c.param_rx ≡ some rx → Recovered rx c d

  -- The ring is accounted for in any state that agrees with the recovered one on the commands.
  commands_back :
      (c d : Cold R M) (rx ry : R.Queue)
      → some rx ≡ some ry
      → (recover_commands R M rx c).param_rx ≡ d.param_rx
      → (recover_commands R M rx c).recovered_commands ≡ d.recovered_commands
      → (recover_commands R M rx c).cmd_last_ack ≡ d.cmd_last_ack
      → (recover_commands R M rx c).pending_model ≡ d.pending_model
      → Recovered ry c d
  commands_back c d rx ry i w x y z =
      let v = recover_commands-Recovered rx c in
      let (q, e, f) = v.emptied in
      let k : rx ≡ ry = cc i in
      rw (← k) (record {
        emptied = (q, sym w ∙ e, f);
        replayed = sym x ∙ v.replayed;
        resolved = sym y ∙ v.resolved;
        newest = rw (← z) (v.newest);
      })

  put_back-none : {A : Type 0} (o : Option A) → put_back o none ≡ o
  put_back-none none = refl
  put_back-none (some a) = refl

  restart_back :
      (D : Dsp E) (fs : Factors D) (p : PendingRestartOs E)
      → restart_raw R M D (held_restart R M (take D (encode D p)).0) (take D (encode D p)).1
        ≡ encode D p
  restart_back D fs p = rw ((decode-encode D fs p).1) (of_held p)
    where
      of_held :
          (p : PendingRestartOs E)
          → restart_raw R M D (held_restart R M p) (encode D no_restart) ≡ encode D p
      of_held no_restart = refl
      of_held (pending f) = refl

  restart_kept :
      (D : Dsp E) (fs : Factors D) (p : PendingRestartOs E) (c : Cold R M)
      → c.pending_restart_os_factor ≡ encode D p
      → restart_raw R M D
          (held_restart R M (take D c.pending_restart_os_factor).0)
          (take D c.pending_restart_os_factor).1
        ≡ c.pending_restart_os_factor
  unfolding take
  restart_kept D fs p c h =
      ap (λ n. restart_raw R M D (held_restart R M (take D n).0) 0) h ∙ restart_back D fs p ∙ sym h

  -- What an error leaves, the deactivated state being lost if it is an error after the assembly.
  abbrev pub AfterError : Dsp E → Cold R M → Type 0
  AfterError D c =
      GivenBack c (give_up R M D (extract R M D c))
      × ((give_up R M D (extract R M D c)).deactivated_dsp ≡ c.deactivated_dsp)
      × GivenBack c (give_up_late R M D (extract R M D c))
      × ((g : Guard R M) (d : Cold R M)
          → extract R M D c ≡ extracted g d
          → (give_up_late R M D (extract R M D c)).deactivated_dsp ≡ none)

  -- When `activate` returns an error, on an empty slot, after all is taken, or in `flush_pending_model`
  -- once the resources are assembled, which has put its model back, the shared state has the pending
  -- restart, the slimmable ring's end and the garbage ring's end that it had before, and a command ring
  -- it had is recovered: empty, each command accounted for. It has the deactivated state that it had
  -- before if the error comes before the assembly; after it, the deactivated state is gone. The pending
  -- restart must be the encoding of one and the factors the three that exist.
  pub extract-give_up :
      (D : Dsp E) (fs : Factors D) (p : PendingRestartOs E) (c : Cold R M)
      → c.pending_restart_os_factor ≡ encode D p
      → AfterError D c
  unfolding extract give_up give_up_late recover_commands
  extract-give_up D fs p c h = elim (Option-cases c.param_rx) [
    | inl e ↦
        rw (extract, e)
          (
            record { restart = refl; slimmable_rx = refl; gc_tx = refl; commands = λ rx i. cc i },
            refl,
            record { restart = refl; slimmable_rx = refl; gc_tx = refl; commands = λ rx i. cc i },
            λ g d i. cc i,
          )
    | inr (rx, e) ↦ elim (Option-cases c.gc_tx) [
      | inl f ↦
          rw (extract, e, f)
            (
              record {
                restart = refl;
                slimmable_rx = refl;
                gc_tx = f;
                commands = λ ry i. commands_back _ _ rx ry i refl refl refl refl;
              },
              refl,
              record {
                restart = refl;
                slimmable_rx = refl;
                gc_tx = f;
                commands = λ ry i. commands_back _ _ rx ry i refl refl refl refl;
              },
              λ g d i. cc i,
            )
      | inr (tx, f) ↦ elim (Option-cases c.slimmable_rx) [
        | inl g ↦
            rw (extract, e, f, g)
              (
                record {
                  restart = refl;
                  slimmable_rx = g;
                  gc_tx = refl;
                  commands = λ ry i. commands_back _ _ rx ry i refl refl refl refl;
                },
                refl,
                record {
                  restart = refl;
                  slimmable_rx = g;
                  gc_tx = refl;
                  commands = λ ry i. commands_back _ _ rx ry i refl refl refl refl;
                },
                λ g d i. cc i,
              )
        | inr (s, g) ↦
            rw (extract, e, f, g)
              (
                record {
                  restart = restart_kept D fs p c h;
                  slimmable_rx = refl;
                  gc_tx = refl;
                  commands = λ ry i. commands_back _ _ rx ry i refl refl refl refl;
                },
                put_back-none c.deactivated_dsp,
                record {
                  restart = restart_kept D fs p c h;
                  slimmable_rx = refl;
                  gc_tx = refl;
                  commands = λ ry i. commands_back _ _ rx ry i refl refl refl refl;
                },
                λ g d i. refl,
              )
      ]
    ]
  ]
