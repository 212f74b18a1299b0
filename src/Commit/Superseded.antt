-- ===== src/Commit/Superseded.antt =====
-- src/clap/extensions/state_transaction/commit.rs: a restore while an earlier one is still pending.
use nam_plug.Prelude.{◌≡◌, refl, Bool, true, false, Option, none, some}
use nam_plug.Engine.{Engine, Ring}
use nam_plug.Dsp.{Dsp}
use nam_plug.Payload.{ClapParamPayload, RestoreTxn, restore_txn}
use nam_plug.Scheduler.{Channel, Pushed, ok, full, try_push_command}
use nam_plug.Assets.{Bytes, Disk, Loader}
use nam_plug.Commit.{
  Models, RestoreModelPublish, RestorePublish, PendingRestore, ModelView, MainThread,
}
use nam_plug.Commit.Publish.{publish_restore, publish_model}
use nam_plug.Commit.Deliver.{deliver_after, commit_continuous}
use nam_plug.Commit.Staged.{commit_continuous-Pending}

module _ {E : Engine} {K : Disk} (L : Loader E K) (M : Models E K) (D : Dsp E)
    (R : Ring (ClapParamPayload E)) where
  keeps_view :
      (b : Bool) (o : Option (RestoreModelPublish L)) (name : Option Bytes) (view : ModelView L)
      → b ≡ false
      → o ≡ none
      → publish_model L b o name view ≡ view
  unfolding publish_model
  keeps_view false none name view h k = refl
  keeps_view true o name view h k = cc h
  keeps_view false (some m) name view h k = cc k

  deliver_after-forgets :
      (p : PendingRestore L) (txn : RestoreTxn E) (s : MainThread L R) (r : Channel E R × Pushed)
      → deliver_after L M D R p txn s r
        ≡ deliver_after L M D R p txn (record s { pending_restore = none }) r
  deliver_after-forgets p txn s (c, ok seq) = refl
  deliver_after-forgets p txn s (c, full) = refl

  -- A preset without a model, committed at once, leaves everything as if no restore had been pending,
  -- whatever restore was: so the earlier one's publication, and its package when the ring has not taken
  -- it, are dropped. What is pending is the preset's publication whole; the model that is shown is the
  -- one before, and publishing the preset, whenever that is, changes no model that is shown.
  pub commit_continuous-forgets :
      (p : RestorePublish L) (txn : RestoreTxn E) (s : MainThread L R)
      → p.model ≡ none
      → p.mode_full ≡ false
      → (commit_continuous L M D R p txn s
          ≡ commit_continuous L M D R p txn (record s { pending_restore = none }))
        × ((commit_continuous L M D R p txn s).model_view ≡ s.model_view)
        × (q : PendingRestore L) × ((commit_continuous L M D R p txn s).pending_restore ≡ some q)
        × (q.publish ≡ p)
        × ((u : MainThread L R) → (publish_restore L M D R q.publish u).model_view ≡ u.model_view)
  unfolding publish_restore commit_continuous
  commit_continuous-forgets p txn s k l =
      let ((q, a, b, g, c), d, e, f) = commit_continuous-Pending L M D R p txn s in
      (
        deliver_after-forgets
            (record { generation = txn.generation; txn = some txn; publish = p; seq = 0 }) txn
            (record s { staged_restore = none; staged_swap = none })
            (try_push_command E R (restore_txn txn) s.cmd_producer),
        d.model_view,
        q,
        a,
        b,
        λ u. rw b (keeps_view p.mode_full p.model p.model_basename u.model_view l k),
      )
