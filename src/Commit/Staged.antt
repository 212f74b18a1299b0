-- ===== src/Commit/Staged.antt =====
-- src/clap/extensions/state_transaction/commit.rs: a restore is committed at once, or waits for a restart.
use mathlib.Core.Path.{subst}
use nam_plug.Prelude.{
  ℕ, ◌+◌, ◌≡◌, refl, sym, ap, ◌∙◌, Bool, true, false, not, ◌||◌, Option, none, some, ◌==◌, arith,
}
use nam_plug.Float.{u32_as_f32}
use nam_plug.Engine.{Engine, Ring}
use nam_plug.Dsp.{Dsp, Factors}
use nam_plug.Payload.{ClapParamPayload, LoadModelPayload, RestoreTxn, restore_txn}
use nam_plug.Restart.{PendingRestartOs, no_restart, pending, decode}
use nam_plug.Scheduler.{Channel, Pushed, ok, full, try_push_command, wrap64}
use nam_plug.Assets.{Disk, Loader, Result, done, failure, >>=-inv}
use nam_plug.Assets.Validate.{RestoreMode, ValidatedRestore}
use nam_plug.Commit.{Models, RestorePublish, PendingRestore, MainThread}
use nam_plug.Commit.Package.{build_restore_package, model_component}
use nam_plug.Commit.Deliver.{
  is_restart, deliver_after, commit_continuous, commit_if, stream_latency_differs, pair_latency,
  cabsim_latency_differs, os_differs, latency_differs, host_rate_of, atomic_commit,
}
use nam_plug.Commit.Delivered.{Unshown}

or_false : (a b : Bool) → (a || b) ≡ false → (a ≡ false) × (b ≡ false)
or_false true b h = cc h
or_false false b h = (refl, h)

not-false : (a : Bool) → not a ≡ false → a ≡ true
not-false true h = refl
not-false false h = cc h

not_restart : {E : Engine} (r : PendingRestartOs E) → is_restart r ≡ false → r ≡ no_restart
not_restart no_restart h = refl
not_restart (pending f) h = cc h

module _ {E : Engine} {K : Disk} (L : Loader E K) (M : Models E K) (D : Dsp E)
    (R : Ring (ClapParamPayload E)) where
  -- The package was pushed from `s` to `t`, and its number is kept; or the ring refused it, and it is
  -- kept.
  pub data Pushes (txn : RestoreTxn E) (s t : MainThread L R) (q : PendingRestore L) : Type 0 where
    accepted :
        q.txn ≡ none
        → try_push_command E R (restore_txn txn) s.cmd_producer ≡ (t.cmd_producer, ok q.seq)
        → Pushes txn s t q
    held :
        q.txn ≡ some txn
        → try_push_command E R (restore_txn txn) s.cmd_producer ≡ (t.cmd_producer, full)
        → Pushes txn s t q

  -- The package is pending, sent or not.
  abbrev pub Pending : RestorePublish L → RestoreTxn E → MainThread L R → MainThread L R → Type 0
  Pending p txn s t =
      (q : PendingRestore L) × (t.pending_restore ≡ some q)
      × (q.publish ≡ p)
      × (q.generation ≡ txn.generation)
      × Pushes txn s t q

  deliver_after-Pending :
      (p : PendingRestore L) (txn : RestoreTxn E) (s : MainThread L R) (r : Channel E R × Pushed)
      → try_push_command E R (restore_txn txn) s.cmd_producer ≡ r
      → p.generation ≡ txn.generation
      → Pending p.publish txn s (deliver_after L M D R p txn s r)
        × Unshown L M D R s (deliver_after L M D R p txn s r)
        × ((deliver_after L M D R p txn s r).staged_restore ≡ s.staged_restore)
        × ((deliver_after L M D R p txn s r).staged_swap ≡ s.staged_swap)
  deliver_after-Pending p txn s (c, ok seq) h g = (
    (record p { txn = none; seq = seq }, refl, refl, g, accepted refl h),
    record { params = refl; model_view = refl; ir_view = refl; ui_to_rt = refl },
    refl,
    refl,
  )
  deliver_after-Pending p txn s (c, full) h g = (
    (record p { txn = some txn }, refl, refl, g, held refl h),
    record { params = refl; model_view = refl; ir_view = refl; ui_to_rt = refl },
    refl,
    refl,
  )

  pub commit_continuous-Pending :
      (p : RestorePublish L) (txn : RestoreTxn E) (s : MainThread L R)
      → Pending p txn s (commit_continuous L M D R p txn s)
        × Unshown L M D R s (commit_continuous L M D R p txn s)
        × ((commit_continuous L M D R p txn s).staged_restore ≡ none)
        × ((commit_continuous L M D R p txn s).staged_swap ≡ none)
  unfolding commit_continuous
  commit_continuous-Pending p txn s =
      let t = record s { staged_restore = none; staged_swap = none } in
      let (a, b, c, d) =
        deliver_after-Pending
          (record { generation = txn.generation; txn = some txn; publish = p; seq = 0 }) txn t
          (try_push_command E R (restore_txn txn) s.cmd_producer) refl refl in
      let (q, x, y, z, w) = a in
      (
        (q, x, y, z, pushed_from w),
        record {
          params = b.params;
          model_view = b.model_view;
          ir_view = b.ir_view;
          ui_to_rt = b.ui_to_rt;
        },
        c,
        d,
      )
    where
      pushed_from :
          {u : MainThread L R} {q : PendingRestore L}
          → Pushes txn (record s { staged_restore = none; staged_swap = none }) u q
          → Pushes txn s u q
      pushed_from (accepted h k) = accepted h k
      pushed_from (held h k) = held h k

  -- Nothing in the package changes a latency, and no restart is pending.
  pub record SameLatency (p : RestorePublish L) (txn : RestoreTxn E) (s : MainThread L R)
      : Type 0 where
    pub stream :
        (m : LoadModelPayload E)
        → txn.model ≡ some m
        → D.stream_latency m.new_stream ≡ s.current_stream_latency
    pub cabsim :
        (pair : Option E.CabSimPair)
        → txn.ir ≡ some pair
        → pair_latency L M D R pair ≡ s.current_cabsim_latency
    pub factor : p.params.rt.oversample ≡ E.factor_from (u32_as_f32 s.ui_to_rt.param_oversample)
    pub no_pending : decode D s.pending_restart_os_factor ≡ no_restart

  same_stream :
      (o : Option (LoadModelPayload E)) (n : ℕ)
      → stream_latency_differs L M D R o n ≡ false
      → (m : LoadModelPayload E) → o ≡ some m
      → D.stream_latency m.new_stream ≡ n
  unfolding stream_latency_differs
  same_stream none n h m e = cc e
  same_stream (some k) n h m e =
      let j : k ≡ m = cc e in
      rw (← j) (ground (arith, not-false (D.stream_latency k.new_stream == n) h))

  same_cabsim :
      (o : Option (Option E.CabSimPair)) (n : ℕ)
      → cabsim_latency_differs L M D R o n ≡ false
      → (pair : Option E.CabSimPair) → o ≡ some pair
      → pair_latency L M D R pair ≡ n
  unfolding cabsim_latency_differs
  same_cabsim none n h pair e = cc e
  same_cabsim (some k) n h pair e =
      let j : k ≡ pair = cc e in
      rw (← j) (ground (arith, not-false (pair_latency L M D R k == n) h))

  latency_differs-SameLatency :
      (fs : Factors D) (p : RestorePublish L) (txn : RestoreTxn E) (s : MainThread L R)
      → latency_differs L M D R p txn s ≡ false
      → SameLatency p txn s
  unfolding latency_differs
  latency_differs-SameLatency fs p txn s h =
      let (x, c) =
        or_false
          (stream_latency_differs L M D R txn.model s.current_stream_latency
            || cabsim_latency_differs L M D R txn.ir s.current_cabsim_latency)
          (os_differs L M D R p s) h in
      let (a, b) =
        or_false (stream_latency_differs L M D R txn.model s.current_stream_latency)
          (cabsim_latency_differs L M D R txn.ir s.current_cabsim_latency) x in
      let (f, g) =
        or_false
          (not (
            D.eq_factor p.params.rt.oversample
              (E.factor_from (u32_as_f32 s.ui_to_rt.param_oversample))))
          (is_restart (decode D s.pending_restart_os_factor)) c in
      record {
        stream = same_stream txn.model s.current_stream_latency a;
        cabsim = same_cabsim txn.ir s.current_cabsim_latency b;
        factor =
            fs.eq_lem p.params.rt.oversample
              (E.factor_from (u32_as_f32 s.ui_to_rt.param_oversample))
              (not-false
                (D.eq_factor p.params.rt.oversample
                  (E.factor_from (u32_as_f32 s.ui_to_rt.param_oversample)))
                f);
        no_pending = not_restart (decode D s.pending_restart_os_factor) g;
      }

  -- What a commit of the package does of the two.
  pub data Committed (p : RestorePublish L) (txn : RestoreTxn E) (s t : MainThread L R)
      : Type 0 where
    continuous :
        SameLatency p txn s → t.staged_restore ≡ none → Pending p txn s t → Committed p txn s t
    strict :
        t.staged_restore ≡ some (record { txn = txn; publish = p })
        → t.cmd_producer ≡ s.cmd_producer
        → t.pending_restore ≡ s.pending_restore
        → t.host.restarts ≡ s.host.restarts + 1
        → Committed p txn s t

  commit_if-Committed :
      (fs : Factors D) (b : Bool) (p : RestorePublish L) (txn : RestoreTxn E) (s : MainThread L R)
      → latency_differs L M D R p txn s ≡ b
      → Committed p txn s (commit_if L M D R b p txn s)
        × Unshown L M D R s (commit_if L M D R b p txn s)
        × ((commit_if L M D R b p txn s).staged_swap ≡ none)
  unfolding commit_if
  commit_if-Committed fs false p txn s h =
      let (a, b, c, d) = commit_continuous-Pending p txn s in
      (continuous (latency_differs-SameLatency fs p txn s h) c a, b, d)
  commit_if-Committed fs true p txn s h = (
    strict refl refl refl refl,
    record { params = refl; model_view = refl; ir_view = refl; ui_to_rt = refl },
    refl,
  )

  -- A package advances the two counters, and changes nothing else.
  abbrev counted : MainThread L R → ℕ → ℕ → MainThread L R
  counted s m r = record s { model_generation = m; restore_generation = r }

  build_restore_package-counted :
      (v : ValidatedRestore L) (mode : RestoreMode) (rate : ℕ) (s u : MainThread L R)
      (p : RestorePublish L) (txn : RestoreTxn E)
      → build_restore_package L M R v mode rate s ≡ done (p, txn, u)
      → (m : ℕ) × (r : ℕ) × (counted s m r ≡ u)
  unfolding build_restore_package
  build_restore_package-counted v mode rate s u p txn h =
      let ((c, g), a, k) =
        >>=-inv (model_component L M mode rate s.buffer_size v.model s.model_generation) _
          (p, txn, u) h in
      (g, wrap64 (s.restore_generation + 1), ap (thread s) k)
    where
      thread :
          MainThread L R
          → Result (RestorePublish L × RestoreTxn E × MainThread L R)
          → MainThread L R
      thread d (done (x, y, z)) = z
      thread d (failure e) = d

  -- A commit that succeeds has built a package, `u` being the main thread with the counters that this
  -- advanced, and then changes nothing of what is shown, and drops what was staged for a swap. Either
  -- the package leaves every latency and the oversampling as they are, no restart is pending, nothing
  -- stays staged, and its publication is pending: the package was pushed to the audio thread and the
  -- number of the push is kept, or the ring refused that push and the package is kept whole. Or it is
  -- staged whole for the restart that is asked of the host, and nothing is sent.
  pub atomic_commit-Committed :
      (fs : Factors D) (v : ValidatedRestore L) (mode : RestoreMode) (s t : MainThread L R)
      → atomic_commit L M D R v mode s ≡ done t
      → (p : RestorePublish L) × (txn : RestoreTxn E) × (u : MainThread L R)
        × (build_restore_package L M R v mode (host_rate_of L M D R s.sample_rate) s
            ≡ done (p, txn, u))
        × Committed p txn u t
        × Unshown L M D R s t
        × (t.staged_swap ≡ none)
  unfolding atomic_commit
  atomic_commit-Committed fs v mode s t h =
      let ((p, txn, u), a, k) =
        >>=-inv (build_restore_package L M R v mode (host_rate_of L M D R s.sample_rate) s) _ t h in
      let (m, r, e) =
        build_restore_package-counted v mode (host_rate_of L M D R s.sample_rate) s u p txn a in
      let f : commit_if L M D R (latency_differs L M D R p txn u) p txn u ≡ t = cc k in
      let g = commit_if-Committed fs (latency_differs L M D R p txn u) p txn u refl in
      let (x, y, z) = settled p txn u t f g in
      (
        p,
        txn,
        u,
        a,
        x,
        record {
          params = y.params ∙ ap (λ w. w.params) (sym e);
          model_view = y.model_view ∙ ap (λ w. w.model_view) (sym e);
          ir_view = y.ir_view ∙ ap (λ w. w.ir_view) (sym e);
          ui_to_rt = y.ui_to_rt ∙ ap (λ w. w.ui_to_rt) (sym e);
        },
        z,
      )
    where
      settled :
          (p : RestorePublish L) (txn : RestoreTxn E) (u t : MainThread L R) {w : MainThread L R}
          → w ≡ t
          → Committed p txn u w × Unshown L M D R u w × (w.staged_swap ≡ none)
          → Committed p txn u t × Unshown L M D R u t × (t.staged_swap ≡ none)
      settled p txn u t {w} f g =
          subst (λ x. Committed p txn u x × Unshown L M D R u x × (x.staged_swap ≡ none)) f g
