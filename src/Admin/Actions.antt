-- ===== src/Admin/Actions.antt =====
-- The `apply_` operations of crates/admin/src/lib.rs, each over the ports it drives. The calendar
-- of `parse_start_time`, the encoder of the gate's configuration and the digest of a ruleset come
-- from outside.
pub mod Edge
pub mod Schedule
pub mod Ruleset
use Prim.Native.String.{String}
use virtual_waiting_room.Prelude.{
  ℕ, ◌+◌, ◌-◌, ◌*◌, ◌&&◌, ◌||◌, Bool, true, false, not, Option, none, some, List, leb, ltb, ◌==◌,
  if◌then◌else◌, length,
}
use virtual_waiting_room.Prelude.Result.{Result, ok, err}
use virtual_waiting_room.Ids.{Phase, active, maintenance, pre_queue, StoredControl, IllegalControl}
use virtual_waiting_room.Ids
use virtual_waiting_room.Items.Attributes.{parse_u32}
use virtual_waiting_room.Admin.{
  ArrivalTime, epoch_seconds, as_millisecond, max_admission_rate, debounce_millis, ControlState,
  AdminAction, set_phase, pause, resume, StoreError, ActionError, unknown_phase, illegal_transition,
  invalid_rate, rate_too_high, too_fast, action_conflict, not_found, not_opened, ApplyError, action,
  store, Action, Store,
}
use virtual_waiting_room.Admin.Phases.{same, transition_allowed}

-- A handler: a chain of port calls and checks, each of which may end it.
abbrev pub Handler : Type 0 → Type 0 → Type 0
Handler S A = Action S A ApplyError

infixl 5 ◌>>=◌
abbrev pub ◌>>=◌ : {S A B E : Type 0} → Action S A E → (A → Action S B E) → Action S B E
◌>>=◌ m f world =
    let (r, world') = m world in elim r [ ok a ↦ f a world' | err e ↦ (err e, world') ]

abbrev pub pure : {S A E : Type 0} → A → Action S A E
pure a world = (ok a, world)

abbrev pub fail : {S A : Type 0} → ActionError → Handler S A
fail e world = (err (action e), world)

abbrev pub of_store : {A : Type 0} → Result A StoreError → Result A ApplyError
of_store (ok a) = ok a
of_store (err e) = err (store e)

abbrev pub call : {S A : Type 0} → Action S A StoreError → Handler S A
call m world = let (r, world') = m world in (of_store r, world')

abbrev pub of_check : {A : Type 0} → Result A ActionError → Result A ApplyError
of_check (ok a) = ok a
of_check (err e) = err (action e)

abbrev pub check : {S A : Type 0} → Result A ActionError → Handler S A
check r world = (of_check r, world)

abbrev pub guard : Bool → ActionError → Result (Unit {0}) ActionError
guard true e = ok tt
guard false e = err e

abbrev pub found : {S : Type 0} → Option ControlState → Handler S ControlState
found none = fail not_found
found (some state) = pure state

-- `load`, and `NotFound` for a missing event.
abbrev pub load_event : {S : Type 0} → Store S → Handler S ControlState
load_event s = do loaded ← call s.load; found loaded

-- The signed time since the last action, in nanoseconds, lies in `0..DEBOUNCE`.
abbrev pub is_recent : Option ℕ → ArrivalTime → Bool
is_recent none now = false
is_recent (some last) now =
    leb (last * 1000000) now.nanos && ltb (now.nanos - last * 1000000) (debounce_millis * 1000000)

unfoldable pub debounce_check : ControlState → ArrivalTime → Result (Unit {0}) ActionError
debounce_check state now = guard (not (is_recent state.last_action_time now)) too_fast

abbrev pub or_unknown : Result Phase String → Result Phase ActionError
or_unknown (ok p) = ok p
or_unknown (err e) = err unknown_phase

unfoldable pub parse_phase : String → Result Phase ActionError
parse_phase text = or_unknown (Ids.parse_phase text)

abbrev pub is_some : {A : Type 0} → Option A → Bool
is_some none = false
is_some (some a) = true

abbrev pub check_phase : ControlState → Phase → Result (Unit {0}) ActionError
check_phase state to =
    if same to maintenance
    then err (illegal_transition state.phase to)
    else if not (transition_allowed state.phase to)
    then err (illegal_transition state.phase to)
    else guard (not (same to active && not (is_some state.participant_count))) not_opened

abbrev pub parse_rate : Option ℕ → Result ℕ ActionError
parse_rate none = err invalid_rate
parse_rate (some rate) =
    if rate == 0
    then err invalid_rate
    else if ltb max_admission_rate rate
    then err (rate_too_high max_admission_rate)
    else ok rate

abbrev pub or_conflict : Result StoredControl IllegalControl → Result StoredControl ActionError
or_conflict (ok c) = ok c
or_conflict (err e) = err action_conflict

module _ {S : Type 0} (s : Store S) where
  unfoldable pub apply_phase : String → String → ArrivalTime → Handler S Phase
  apply_phase text actor now = do
    to ← check (parse_phase text)
    state ← load_event s
    _ ← check (check_phase state to)
    _ ← call (s.set_phase state.phase to set_phase actor now)
    pure to

  unfoldable pub apply_force_maintenance : String → ArrivalTime → Handler S (Unit {0})
  apply_force_maintenance actor now = do
    state ← load_event s
    call (s.force_maintenance state.phase actor now)

  unfoldable pub apply_rate : String → String → ArrivalTime → Handler S ℕ
  apply_rate text actor now = do
    rate ← check (parse_rate (parse_u32 text))
    state ← load_event s
    _ ← check (debounce_check state now)
    _ ← call (s.set_rate state.target_rate rate actor now)
    pure rate

  unfoldable pub apply_control :
      (StoredControl → Result StoredControl IllegalControl)
      → AdminAction
      → String
      → ArrivalTime
      → Handler S (Unit {0})
  apply_control transition label actor now = do
    state ← load_event s
    _ ← check (debounce_check state now)
    to ← check (or_conflict (transition state.stored_control))
    call (s.set_stored_control state.stored_control to label actor now)

  unfoldable pub apply_pause : String → ArrivalTime → Handler S (Unit {0})
  unfolding apply_control
  apply_pause actor now = apply_control Ids.pause pause actor now

  unfoldable pub apply_resume : String → ArrivalTime → Handler S (Unit {0})
  unfolding apply_control
  apply_resume actor now = apply_control Ids.resume resume actor now

  unfoldable pub apply_message : String → String → ArrivalTime → Handler S (Unit {0})
  apply_message message actor now = do
    state ← load_event s
    _ ← check (debounce_check state now)
    call (s.set_message message actor now)
