-- ===== src/Ids.antt =====
-- crates/wr-common/src/ids.rs: the event's phase, the operator's admission control with its
-- fail-open window, and what a visitor experiences. A wire string is a `String`.
pub mod Wire
pub mod Control
use Prim.Native.String.{String}
use text.Mathlib.Text.{◌==◌ as str_eq}
use virtual_waiting_room.Prelude.{
  ℕ, suc, ◌+◌, ◌||◌, Bool, true, false, List, [], ◌∷◌, ltb, ◌==◌, if◌then◌else◌, length, not,
}
use virtual_waiting_room.Prelude.Result.{Result, ok, err}
use virtual_waiting_room.Prelude.Text.{is_ascii_hexdigit}

-- The loop of `is_uuid_shape`, from the byte at index `i` on.
unfoldable pub uuid_loop : ℕ → List ℕ → Bool
uuid_loop i [] = true
uuid_loop i (b ∷ bytes) =
    let rest = uuid_loop (i + 1) bytes in
    let is_ok =
      if i == 8 || i == 13 || i == 18 || i == 23 then b == b'-' else is_ascii_hexdigit b in
    if not is_ok then false else rest

unfoldable pub is_uuid_shape : List ℕ → Bool
is_uuid_shape bytes = if not (length bytes == 36) then false else uuid_loop 0 bytes

pub data Phase : Type 0 where
  idle pre_queue active post_event maintenance : Phase

pub data StoredControl : Type 0 where
  open_control paused_control : StoredControl

pub data AdmissionControl : Type 0 where
  admitting held fail_open : AdmissionControl

pub data ServingState : Type 0 where
  running paused closed bypassed : ServingState

pub record IllegalControl : Type 0 where
  pub from : StoredControl
  pub action : String

pub pause : StoredControl → Result StoredControl IllegalControl
pause open_control = ok paused_control
pause paused_control = err (record { from = paused_control; action = "pause" })

pub resume : StoredControl → Result StoredControl IllegalControl
resume paused_control = ok open_control
resume open_control = err (record { from = open_control; action = "resume" })

-- `StoredControl::as_wire_str` and its `from_str`.
unfoldable pub control_wire : StoredControl → String
control_wire open_control = "open"
control_wire paused_control = "paused"

unfoldable pub parse_control : String → Result StoredControl String
parse_control s =
    if str_eq s "open"
    then ok open_control
    else if str_eq s "paused"
    then ok paused_control
    else err s

-- `AdmissionControl::as_wire_str`, for display alone.
pub admission_wire : AdmissionControl → String
admission_wire admitting = "open"
admission_wire held = "paused"
admission_wire fail_open = "fail_open"

unfoldable pub resolve : StoredControl → ℕ → ℕ → AdmissionControl
resolve stored fail_open_until now =
    if ltb now fail_open_until
    then fail_open
    else elim stored [ open_control ↦ admitting | paused_control ↦ held ]

unfoldable pub serving_state : Phase → AdmissionControl → ServingState
serving_state phase fail_open = bypassed
serving_state active held = paused
serving_state active admitting = running
serving_state idle control = closed
serving_state pre_queue control = closed
serving_state post_event control = closed
serving_state maintenance control = closed

-- `Phase::as_wire_str` and its `from_str`.
pub phase_wire : Phase → String
phase_wire idle = "idle"
phase_wire pre_queue = "pre_queue"
phase_wire active = "active"
phase_wire post_event = "post_event"
phase_wire maintenance = "maintenance"

unfoldable pub parse_phase : String → Result Phase String
parse_phase s =
    if str_eq s "idle"
    then ok idle
    else if str_eq s "pre_queue"
    then ok pre_queue
    else if str_eq s "active"
    then ok active
    else if str_eq s "post_event"
    then ok post_event
    else if str_eq s "maintenance"
    then ok maintenance
    else err s
