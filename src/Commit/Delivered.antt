-- ===== src/Commit/Delivered.antt =====
-- src/clap/extensions/state_transaction/commit.rs: a restore is shown after the audio thread has it.
use nam_plug.Prelude.{
  ℕ, ◌<◌, ◌≡◌, refl, sym, ap, ◌∙◌, Bool, true, false, ◌&&◌, Option, none, some, ltb, arith,
}
use nam_plug.Engine.{Engine, Ring}
use nam_plug.Dsp.{Dsp}
use nam_plug.Payload.{ClapParamPayload, RestoreTxn, restore_txn}
use nam_plug.Scheduler.{Channel, Pushed, ok, full, try_push_command, is_acked}
use nam_plug.Assets.{Disk, Loader}
use nam_plug.Commit.{Models, RestorePublish, PendingRestore, MainThread}
use nam_plug.Commit.Publish.{publish_restore}
use nam_plug.Commit.Deliver.{
  note_pushed, publish_if, publish_acked, flush_after, flush_txn, flush_slot, flush_pending_restore,
}

module _ {E : Engine} {K : Disk} (L : Loader E K) (M : Models E K) (D : Dsp E)
    (R : Ring (ClapParamPayload E)) where
  -- What the host, the GUI and a later save read is the same.
  pub record Unshown (s t : MainThread L R) : Type 0 where
    pub params : t.params ≡ s.params
    pub model_view : t.model_view ≡ s.model_view
    pub ir_view : t.ir_view ≡ s.ir_view
    pub ui_to_rt : t.ui_to_rt ≡ s.ui_to_rt

  -- The transaction of `p` has the number `seq` in the ring `c`: it was pushed before, or is now.
  pub data SentAs (p : PendingRestore L) (s : MainThread L R) (seq : ℕ) (c : Channel E R)
      : Type 0 where
    before : p.txn ≡ none → seq ≡ p.seq → c ≡ s.cmd_producer → SentAs p s seq c
    now :
        (txn : RestoreTxn E)
        → p.txn ≡ some txn
        → try_push_command E R (restore_txn txn) s.cmd_producer ≡ (c, ok seq)
        → SentAs p s seq c

  pub data Flushed (p : PendingRestore L) (s t : MainThread L R) : Type 0 where
    refused :
        (txn : RestoreTxn E)
        → p.txn ≡ some txn
        → (try_push_command E R (restore_txn txn) s.cmd_producer).1 ≡ full
        → (q : PendingRestore L) → t.pending_restore ≡ some q
        → q.txn ≡ some txn
        → q.publish ≡ p.publish
        → Unshown s t
        → Flushed p s t
    waiting :
        (q : PendingRestore L)
        → t.pending_restore ≡ some q
        → q.txn ≡ none
        → q.publish ≡ p.publish
        → SentAs p s q.seq t.cmd_producer
        → (ltb 0 q.seq && is_acked E R q.seq t.cmd_producer) ≡ false
        → Unshown s t
        → Flushed p s t
    shown :
        (seq : ℕ) (u : MainThread L R)
        → SentAs p s seq u.cmd_producer
        → 0 < seq
        → is_acked E R seq u.cmd_producer ≡ true
        → Unshown s u
        → t ≡ publish_restore L M D R p.publish u
        → t.pending_restore ≡ none
        → Flushed p s t

  publish_restore-pending_restore :
      (p : RestorePublish L) (s : MainThread L R)
      → (publish_restore L M D R p s).pending_restore ≡ s.pending_restore
  unfolding publish_restore
  publish_restore-pending_restore p s = refl

  publish_if-Flushed :
      (b : Bool) (p q : PendingRestore L) (s u : MainThread L R)
      → (ltb 0 q.seq && is_acked E R q.seq u.cmd_producer) ≡ b
      → q.txn ≡ none
      → q.publish ≡ p.publish
      → SentAs p s q.seq u.cmd_producer
      → u.pending_restore ≡ none
      → Unshown s u
      → Flushed p s (publish_if L M D R b q u)
  unfolding publish_if
  publish_if-Flushed true p q s u t e f i n h =
      let (x, y) = both (ltb 0 q.seq) (is_acked E R q.seq u.cmd_producer) t in
      shown q.seq u i (ground (arith, x)) y h (ap (λ r. publish_restore L M D R r u) f)
        (publish_restore-pending_restore q.publish u ∙ n)
    where
      both : (a b : Bool) → (a && b) ≡ true → (a ≡ true) × (b ≡ true)
      both true true h = (refl, refl)
      both true false h = cc h
      both false b h = cc h
  publish_if-Flushed false p q s u t e f i n h = waiting q refl e f i t (record {
    params = h.params;
    model_view = h.model_view;
    ir_view = h.ir_view;
    ui_to_rt = h.ui_to_rt;
  })

  publish_acked-Flushed :
      (p q : PendingRestore L) (s u : MainThread L R)
      → q.txn ≡ none
      → q.publish ≡ p.publish
      → SentAs p s q.seq u.cmd_producer
      → u.pending_restore ≡ none
      → Unshown s u
      → Flushed p s (publish_acked L M D R q u)
  unfolding publish_acked
  publish_acked-Flushed p q s u e f i n h =
      publish_if-Flushed (ltb 0 q.seq && is_acked E R q.seq u.cmd_producer) p q s u refl e f i n h

  flush_after-Flushed :
      (p : PendingRestore L) (txn : RestoreTxn E) (s u : MainThread L R) (r : Channel E R × Pushed)
      → p.txn ≡ some txn
      → try_push_command E R (restore_txn txn) s.cmd_producer ≡ r
      → u.pending_restore ≡ none
      → Unshown s u
      → Flushed p s (flush_after L M D R p txn u r)
  flush_after-Flushed p txn s u (c, ok seq) e f n h =
      publish_acked-Flushed p (record p { txn = none; seq = seq }) s
        (note_pushed L M D R p (record u { cmd_producer = c })) refl refl (now txn e f) n
        (record {
          params = h.params;
          model_view = h.model_view;
          ir_view = h.ir_view;
          ui_to_rt = h.ui_to_rt;
        })
  flush_after-Flushed p txn s u (c, full) e f n h =
      refused txn e (ap (λ r. r.1) f) (record p { txn = some txn }) refl refl refl
        (record {
          params = h.params;
          model_view = h.model_view;
          ir_view = h.ir_view;
          ui_to_rt = h.ui_to_rt;
        })

  flush_txn-Flushed :
      (p : PendingRestore L) (o : Option (RestoreTxn E)) (s u : MainThread L R)
      → p.txn ≡ o
      → u.cmd_producer ≡ s.cmd_producer
      → u.pending_restore ≡ none
      → Unshown s u
      → Flushed p s (flush_txn L M D R p o u)
  unfolding flush_txn
  flush_txn-Flushed p none s u e f n h = publish_acked-Flushed p p s u e refl (before e refl f) n h
  flush_txn-Flushed p (some txn) s u e f n h =
      flush_after-Flushed p txn s u (try_push_command E R (restore_txn txn) u.cmd_producer) e
        (ap (λ c. try_push_command E R (restore_txn txn) c) (sym f)) n h

  flush_slot-Flushed :
      (o : Option (PendingRestore L)) (p : PendingRestore L) (s : MainThread L R)
      → o ≡ some p
      → Flushed p s (flush_slot L M D R o s)
  unfolding flush_slot
  flush_slot-Flushed none p s e = cc e
  flush_slot-Flushed (some q) p s e =
      let k : q ≡ p = cc e in
      let f : (r : PendingRestore L)
          → Flushed r s (flush_txn L M D R r r.txn (record s { pending_restore = none })) =
        λ r.
          flush_txn-Flushed r r.txn s (record s { pending_restore = none }) refl refl refl
            (record { params = refl; model_view = refl; ir_view = refl; ui_to_rt = refl }) in
      rw k (f p)

  -- A flush of a pending restore has one of three ends. The ring refused it: it stays pending whole.
  -- Or it was pushed, now or before, and the number of that push is not acknowledged: it stays pending
  -- with this number for its publication. In both the parameters, the model and the impulse response
  -- that are shown are those before. Or it was pushed, now or before, and the number of that push is
  -- acknowledged: it is published, and nothing is pending.
  pub flush_pending_restore-Flushed :
      (p : PendingRestore L) (s : MainThread L R)
      → s.pending_restore ≡ some p
      → Flushed p s (flush_pending_restore L M D R s)
  unfolding flush_pending_restore
  flush_pending_restore-Flushed p s e = flush_slot-Flushed s.pending_restore p s e
