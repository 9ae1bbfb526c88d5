-- ===== src/Admin.antt =====
-- crates/admin/src/lib.rs: the operator's actions, over the ports to the table, to the edge gate's
-- store, to the open schedule and to the opener. A port's operation is a function on a world; the
-- event that every operation names is the world's one event.
pub mod Phases
pub mod Config
pub mod Actions
pub mod Live
pub mod Form
pub mod Readiness
pub mod Sessions
use Prim.Native.String.{String}
use virtual_waiting_room.Prelude.{ℕ, ◌*◌, ◌/◌, Bool, Option, none, some, List}
use virtual_waiting_room.Prelude.Result.{Result, ok, err}
use virtual_waiting_room.Prelude.Chars.{Text}
use virtual_waiting_room.Ids.{Phase, StoredControl}
use virtual_waiting_room.Rules.{ProtectionRule, RuleFieldError}

-- An instant at or after 1970, to the nanosecond.
pub record ArrivalTime : Type 0 where
  pub nanos : ℕ

-- `epoch_seconds`, and `timestamp().as_millisecond()`.
abbrev pub epoch_seconds : ArrivalTime → ℕ
epoch_seconds now = now.nanos / 1000000000

abbrev pub as_millisecond : ArrivalTime → ℕ
as_millisecond now = now.nanos / 1000000

-- `MAX_FAIL_OPEN_MINUTES`, `MAX_ADMISSION_RATE` and `DEBOUNCE_MILLIS`.
abbrev pub max_fail_open_minutes : ℕ
max_fail_open_minutes = 1440

abbrev pub max_admission_rate : ℕ
max_admission_rate = 100000

abbrev pub debounce_millis : ℕ
debounce_millis = 2000

pub record GateConfig : Type 0 where
  pub v : ℕ
  pub enforce_from : ℕ
  pub fail_open_until : ℕ
  pub rules : List ProtectionRule
  pub bind_ip : Bool

-- A version of the store, whose text means nothing to the code: here its number.
pub record ETag : Type 0 where
  pub version : ℕ

pub record EdgeStoreError : Type 0 where
  pub text : String

pub record ScheduleError : Type 0 where
  pub text : String

pub record OpenError : Type 0 where
  pub text : String

pub data OpenNow : Type 0 where
  opened already_open : OpenNow

pub record ControlState : Type 0 where
  pub event_id : String
  pub phase : Phase
  pub serving_counter : ℕ
  pub queue_counter : ℕ
  pub participant_count : Option ℕ
  pub target_rate : Option ℕ
  pub message : Option String
  pub stored_control : StoredControl
  pub fail_open_until : ℕ
  pub last_action : Option String
  pub last_action_by : Option String
  pub last_action_at : Option String
  -- In milliseconds, as it is stored.
  pub last_action_time : Option ℕ
  pub starts_at : Option ℕ
  pub starts_at_timezone : Option String

pub data AdminAction : Type 0 where
  set_rate set_message pause resume force_maintenance set_phase fail_open : AdminAction
  recover set_rules set_start_time clear_start_time open_now set_ip_binding : AdminAction

pub as_str : AdminAction → String
as_str set_rate = "set_rate"
as_str set_message = "set_message"
as_str pause = "pause"
as_str resume = "resume"
as_str force_maintenance = "force_maintenance"
as_str set_phase = "set_phase"
as_str fail_open = "fail_open"
as_str recover = "recover"
as_str set_rules = "set_rules"
as_str set_start_time = "set_start_time"
as_str open_now = "open_now"
as_str set_ip_binding = "set_ip_binding"
as_str clear_start_time = "clear_start_time"

pub data StoreError : Type 0 where
  conflict : StoreError
  backend : String → StoreError

-- Why `encode_gate_config` or the reserve for a later fail-open refuses a ruleset. The source
-- carries the sentence that tells it.
pub data GateConfigError : Type 0 where
  too_many_rules too_large : ℕ → ℕ → GateConfigError
  serialize : String → GateConfigError
  field : RuleFieldError → GateConfigError

pub data ActionError : Type 0 where
  unknown_phase : ActionError
  illegal_transition : Phase → Phase → ActionError
  invalid_rate : ActionError
  rate_too_high : ℕ → ActionError
  invalid_duration : ActionError
  invalid_rules : GateConfigError → ActionError
  too_fast action_conflict not_found invalid_start_time start_time_in_past : ActionError
  unknown_timezone not_opened : ActionError

pub data ApplyError : Type 0 where
  action : ActionError → ApplyError
  store : StoreError → ApplyError

pub record StartTime : Type 0 where
  pub epoch_secs : ℕ
  pub expression : Text
  pub timezone : String

-- An operation of a port, and a handler over ports.
abbrev pub Action : Type 0 → Type 0 → Type 0 → Type 0
Action S A E = S → Result A E × S

pub record Store (S : Type 0) : Type 0 where
  pub load : Action S (Option ControlState) StoreError
  pub set_phase :
      Phase → Phase → AdminAction → String → ArrivalTime → Action S (Unit {0}) StoreError
  pub set_rate : Option ℕ → ℕ → String → ArrivalTime → Action S (Unit {0}) StoreError
  pub set_message : String → String → ArrivalTime → Action S (Unit {0}) StoreError
  pub set_stored_control :
      StoredControl
      → StoredControl
      → AdminAction
      → String
      → ArrivalTime
      → Action S (Unit {0}) StoreError
  pub set_fail_open_until : ℕ → AdminAction → String → ArrivalTime → Action S (Unit {0}) StoreError
  pub set_starts_at :
      Option (ℕ × String) → AdminAction → String → ArrivalTime → Action S (Unit {0}) StoreError
  pub set_rules_audit : String → ℕ → String → ArrivalTime → Action S (Unit {0}) StoreError
  pub stamp_action : AdminAction → String → ArrivalTime → Action S (Unit {0}) StoreError
  pub force_maintenance : Phase → String → ArrivalTime → Action S (Unit {0}) StoreError

pub record EdgeConfigStore (S : Type 0) : Type 0 where
  pub read_config : Action S (GateConfig × ETag) EdgeStoreError
  pub write_config : ETag → GateConfig → Action S (Unit {0}) EdgeStoreError

pub record OpenSchedule (S : Type 0) : Type 0 where
  pub set_start_time : Option (Text × String) → Action S (Unit {0}) ScheduleError

pub record Opener (S : Type 0) : Type 0 where
  pub open_now : Action S OpenNow OpenError
