-- ===== src/Lib.antt =====
-- Verification of NAM-Plug, a CLAP plugin that runs neural amplifier models.
--
-- The plugin has a main thread (host calls, model loading, GUI), an audio thread, and state that the
-- two share. The main thread sends commands over a single-producer single-consumer ring
-- (src/clap/plugin/command_scheduler.rs); the audio thread drains it, installs or discards each
-- command (src/clap/processor/events.rs, src/clap/processor/params.rs), and acknowledges by number.
-- The GUI writes parameter values and gesture flags that either thread turns into host events
-- (src/clap/plugin/shared.rs), and every teardown first waits for calls into the host to end
-- (src/clap/plugin/quiescence.rs).
--
-- Prelude.antt passes on the library names and holds tests and lists over the native numbers. Float.antt
-- has f32 values as bit patterns, with comparison, clamp and rounding, and words as their bits; an f64
-- in the modelled code is the exact widening of an f32. Engine.antt and Dsp.antt are what the plugin
-- takes from the engine crate and from rtrb: types, operations, and as named laws the round trips of
-- the enumerations, the FIFO ring, the host's event queue. Samples.antt has a concrete engine and ring
-- at which those laws hold, for the tests.
--
-- Lifecycle.antt models src/clap/gui/lifecycle.rs: `transition` is `GuiLifecycle::transition`.
--
-- Quiescence.antt models src/clap/plugin/quiescence.rs: `Coordinator` is the mutex's state with what
-- surrounds it, each function one critical section; `quiesce_step` is the next one of the thread in
-- `quiesce_state`. Steps.antt puts them in any order, Safety.antt and Liveness.antt prove of all runs.
--
-- Payload.antt and Scheduler.antt model the command family of src/clap/plugin/shared.rs and the ends of
-- src/clap/plugin/command_scheduler.rs: `Channel` holds both ends, `push_params`, `force_flush`,
-- `try_push_command`, `pop_boxed`, `rollback_last_pop`, `advance_pending`, `ack_processed` are the
-- methods of those names. A call of the producer is taken as one step; pops in between only make room.
-- Trace.antt puts the calls in any order; Order.antt and Acks.antt prove of all runs, Delivery.antt,
-- Coalesce.antt and Burst.antt of single calls. Numbers are u64 and wrap; where a result needs that
-- fewer than 2^64 commands were sent, it says so.
--
-- Gestures.antt models the gesture flags and `write_gui_events` of src/clap/plugin/shared.rs, and
-- `get_value` of src/clap/extensions/params/main.rs; Params.antt models `sanitize_param_value`
-- (src/clap/extensions/params/mod.rs) and `get_info` (src/clap/extensions/params/main.rs); Restart.antt
-- models `PendingRestartOs` (src/clap/plugin/shared.rs).
--
-- Swap.antt models the handlers of src/clap/processor/events.rs, whose functions keep their names in
-- Swap/Handler.antt, and `apply_params_from_spsc` and `apply_oversample` of
-- src/clap/processor/params.rs in Swap/Apply.antt; u32 latencies wrap. Retired resources are a list,
-- whose contents Swap/Resources.antt weighs. The dry line is there its delay and its capacity, to which
-- `set_delay` (src/clap/processor/dsp/dry_delay.rs) clamps.
--
-- Rollback.antt models `ActivateRollbackGuard` of src/clap/processor/rollback.rs (`drop_guard`, `defuse`)
-- the part of `activate` in src/clap/processor/mod.rs that fills it (`extract`), and what an error leaves
-- before and after the resources are assembled (`give_up`, `give_up_late`).
--
-- Requests.antt has the state of the model request pipeline, and Requests/Housekeeping.antt its steps:
-- `handle_pending_model_load` and the functions it calls in src/clap/plugin/main_thread/housekeeping.rs,
-- `load_preset` for `load_from_location` (src/clap/extensions/preset_load.rs), `publish` and
-- `publish_panic` for the worker (src/clap/plugin/main_thread/model_loader.rs). What a load yields, and
-- whether the worker takes a job, is given from outside; the model's installation is a log entry.
--
-- Assets.antt, Commit.antt: what a saved state names is first found, verified and built, and only then
-- changed. Assets/Digest.antt, Assets/Locate.antt and Assets/Validate.antt model
-- src/clap/extensions/state_transaction/validate.rs, whose functions keep their names; the disk is a
-- value of `Files` for each moment at which it is read (`seen` when a model is verified, `before` when
-- its build hashes it, `after` when it is loaded), and a path, SHA-256 and the loader are parameters.
-- Commit.antt has the main thread's state that src/clap/extensions/state_transaction/commit.rs reads and
-- writes: Commit/Package.antt models `build_restore_package`, Commit/Publish.antt `publish_restore` and
-- `local_commit`, Commit/Deliver.antt `commit`, `atomic_commit` and the delivery.
--
-- State.antt models src/clap/extensions/state.rs, src/clap/extensions/state_context.rs and
-- src/clap/extensions/state_transaction.rs: State/Save.antt the guard, the snapshot and `save`,
-- State/Load.antt `load_state`, `restore_state_transactional` and `load`. `Json` is what is taken of the
-- JSON library, and `Faithful` its behaviour: what was written is read back, except that an f32 that is
-- infinite or a NaN is written as null. State/Stream.antt reads a stream in pieces of any sizes.
--
-- Blocks.antt models the events of the audio thread: Blocks/Event.antt `apply_scheduled_event` of
-- src/clap/processor/dsp/orchestrator/worker.rs, Blocks/Cut.antt `process_wet_sub_blocks` and
-- Blocks/Schedule.antt `schedule_input_events` of src/clap/processor/dsp/orchestrator.rs, and
-- `BypassCrossfader` of src/clap/processor/state.rs stands in Blocks.antt. `Slice` is the processor while
-- a slice of a block is processed; `Render` stands for `process_sub_block` and the engine's pipeline.
--
-- DryDelay.antt models `DryDelayLine` of src/clap/processor/dsp/dry_delay.rs; the engine's `DelayLine` is
-- a parameter, and `Copies` what is taken of its `copy_state_from`.
--
-- Three definitions run on fuel: `leading` in Float.antt, which finds the leading bit of a number below
-- 2^24 in 24 steps, and `recover_all` in Rollback.antt, the loop that drains the command ring, with one
-- step for each queued command; `recover_all-drains` shows that the ring is then empty; and `sub_blocks`
-- in Blocks/Cut.antt, with a step for each sample and each event, which `sub_blocks-ends` shows to be
-- enough.
--
-- Not modelled: memory orderings of the atomics (each is read and written whole, in some order), log
-- lines and telemetry, the drain loop (the engine's), the GUI's widgets, how the loader prepares a
-- model and polls for rebuilds, JSON as text, the dates of a model's metadata, the rendering of a sub-block, and what activation builds between
-- taking resources and handing them over.
pub mod Prelude
pub mod Lifecycle
pub mod Quiescence
pub mod Float
pub mod Engine
pub mod Payload
pub mod Scheduler
pub mod Gestures
pub mod Params
pub mod Dsp
pub mod Assets
pub mod Commit
pub mod State
pub mod Blocks
pub mod DryDelay
pub mod Requests
pub mod Restart
pub mod Swap
pub mod Rollback
pub mod Samples
