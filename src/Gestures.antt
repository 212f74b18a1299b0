-- ===== src/Gestures.antt =====
-- The gesture flags of src/clap/plugin/shared.rs (`GuiSharedState`): what the GUI sets, and
-- `write_gui_events`, which turns them into events for the host. The atomic operations are taken in
-- the order of one thread; a flag that the GUI sets meanwhile is one that was set before or after.
pub mod Flags
pub mod Stage
pub mod Drain
pub mod Values
mod Tests
use nam_plug.Prelude.{
  ℕ, ◌+◌, ◌*◌, Bool, true, false, Option, none, some, List, [], ◌∷◌, if◌then◌else◌, ◌%◌, ◌^◌, ◌||◌,
  leb, ltb, ◌==◌,
}
use nam_plug.Float.{F32, F64, u32_as_f32, Word, zero_word, set_bit, clear_bit, is_zero_word}
use nam_plug.Engine.{Output}

abbrev pub gesture_changed_shift : ℕ
gesture_changed_shift = 0

abbrev pub gesture_begin_shift : ℕ
gesture_begin_shift = 1

abbrev pub gesture_end_shift : ℕ
gesture_end_shift = 2

abbrev pub gesture_bits_per_param : ℕ
gesture_bits_per_param = 3

-- The parameter ids of src/clap/extensions/params/mod.rs.
abbrev pub param_input_gain : ℕ
param_input_gain = 0

abbrev pub param_output_gain : ℕ
param_output_gain = 1

abbrev pub param_gate_thresh : ℕ
param_gate_thresh = 2

abbrev pub param_bypass : ℕ
param_bypass = 3

abbrev pub param_active_model : ℕ
param_active_model = 4

abbrev pub param_adaptive_compute : ℕ
param_adaptive_compute = 5

abbrev pub param_slim_override : ℕ
param_slim_override = 6

abbrev pub param_oversample : ℕ
param_oversample = 7

abbrev pub param_activation : ℕ
param_activation = 8

-- `gesture_flags`, the `AtomicU32` that holds each parameter's value (by the parameter's id), the
-- generation counter, and the telemetry flag `RT_STATUS_GUI_EVENT_BACKPRESSURE`.
pub record GuiState : Type 0 where
  pub gesture_flags : Word
  pub values : ℕ → F32
  pub generation : ℕ
  pub backpressure : Bool

pub data HostEvent : Type 0 where
  gesture_begin : ℕ → HostEvent
  param_value : ℕ → F32 → HostEvent
  gesture_end : ℕ → HostEvent

abbrev pub gesture_bit : ℕ → ℕ → ℕ
gesture_bit param_index flag_shift = param_index * gesture_bits_per_param + flag_shift

unfoldable pub set_gesture : ℕ → ℕ → GuiState → GuiState
set_gesture param_index flag_shift g = record g {
  gesture_flags = set_bit (gesture_bit param_index flag_shift) g.gesture_flags;
}

unfoldable pub take_gesture : ℕ → ℕ → GuiState → GuiState × Bool
take_gesture param_index flag_shift g = (
  record g { gesture_flags = clear_bit (gesture_bit param_index flag_shift) g.gesture_flags },
  g.gesture_flags (gesture_bit param_index flag_shift),
)

unfoldable pub begin_gesture : ℕ → GuiState → GuiState
unfolding set_gesture
begin_gesture param_id g = set_gesture param_id gesture_begin_shift g

unfoldable pub end_gesture : ℕ → GuiState → GuiState
unfolding set_gesture
end_gesture param_id g = set_gesture param_id gesture_end_shift g

unfoldable pub mark_param_changed : ℕ → GuiState → GuiState
unfolding set_gesture
mark_param_changed param_id g = set_gesture param_id gesture_changed_shift g

unfoldable pub clear_gestures : GuiState → GuiState
clear_gestures g = record g { gesture_flags = zero_word }

unfoldable pub note_gui_backpressure : GuiState → GuiState
note_gui_backpressure g = record g { backpressure = true }

-- The rows of the table `params`, whose index is `param_index(param_id)`, the id itself.
abbrev pub param_indices : List ℕ
param_indices =
    param_input_gain ∷ param_output_gain ∷ param_gate_thresh ∷ param_bypass ∷ param_adaptive_compute
    ∷ param_slim_override ∷ param_oversample ∷ param_activation ∷ []

-- `fetch_add` of one, on a `u32`.
unfoldable pub bump_generation : GuiState → GuiState
bump_generation g = record g { generation = (g.generation + 1) % 2 ^ 32 }

-- `get_value` of src/clap/extensions/params/main.rs for the parameters that have an atomic here:
-- the continuous ones hold an `f32`'s bits, the stepped ones a number.
unfoldable pub get_value : ℕ → GuiState → Option F64
unfolding u32_as_f32
get_value id g =
    if leb id param_gate_thresh
    then some (g.values id)
    else if id == param_active_model || ltb param_activation id
    then none
    else some (u32_as_f32 (g.values id))

module _ (O : Output HostEvent) where
  -- One of the three tests in the loop's body; the last component says whether to go on.
  pub emit : ℕ → ℕ → HostEvent → GuiState → O.Queue → GuiState × O.Queue × Bool
  unfolding take_gesture set_gesture note_gui_backpressure
  emit param_index flag_shift ev g o =
      let (taken, was_set) = take_gesture param_index flag_shift g in
      if was_set
      then elim (O.try_push o ev) [
        | some o' ↦ (taken, o', true)
        | none ↦ (note_gui_backpressure (set_gesture param_index flag_shift taken), o, false)
      ]
      else (taken, o, true)

  abbrev pub go_on :
      GuiState × O.Queue × Bool
      → (GuiState → O.Queue → GuiState × O.Queue × Bool)
      → GuiState × O.Queue × Bool
  go_on (g, o, true) f = f g o
  go_on (g, o, false) f = (g, o, false)

  pub emit_param : ℕ → GuiState → O.Queue → GuiState × O.Queue × Bool
  unfolding emit
  emit_param i g o = go_on (emit i gesture_begin_shift (gesture_begin i) g o) (λ g o.
      go_on (emit i gesture_changed_shift (param_value i (g.values i)) g o)
        (λ g o. emit i gesture_end_shift (gesture_end i) g o))

  pub emit_params : List ℕ → GuiState → O.Queue → GuiState × O.Queue × Bool
  unfolding emit_param
  emit_params [] g o = (g, o, true)
  emit_params (i ∷ is) g o = go_on (emit_param i g o) (emit_params is)

  pub write_gui_events : GuiState → O.Queue → GuiState × O.Queue
  unfolding emit_params
  write_gui_events g o =
      if is_zero_word 32 g.gesture_flags
      then (g, o)
      else (let (g', o', _) = emit_params param_indices g o in (g', o'))
