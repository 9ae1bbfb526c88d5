-- ===== src/Admin/Actions/Schedule.antt =====
-- The start time and the open by hand of crates/admin/src/lib.rs. The calendar of the crate jiff is
-- a parameter: its zones by name, its civil times by their text, and a civil time's instant in a
-- zone with the civil time that the instant has there.
use Prim.Native.String.{String}
use virtual_waiting_room.Prelude.{
  ℕ, Bool, true, false, Option, none, some, [], ◌∷◌, ◌++◌, leb, ◌==◌, if◌then◌else◌,
}
use virtual_waiting_room.Prelude.Result.{Result, ok, err}
use virtual_waiting_room.Prelude.Chars.{Text, utf8_len, trim}
use virtual_waiting_room.Ids.{active, pre_queue}
use virtual_waiting_room.Admin.{
  ArrivalTime, epoch_seconds, ScheduleError, OpenError, OpenNow, opened, already_open,
  set_start_time, clear_start_time, open_now, ActionError, illegal_transition, invalid_start_time,
  start_time_in_past, unknown_timezone, StartTime, Action, Store, OpenSchedule, Opener,
}
use virtual_waiting_room.Admin.Phases.{same}
use virtual_waiting_room.Admin.Actions.{
  Handler, ◌>>=◌, pure, call, check, guard, load_event, debounce_check,
}
use virtual_waiting_room.Admin.Actions.Edge.{as_backend, logged}

abbrev pub call_schedule : {S A : Type 0} → Action S A ScheduleError → Handler S A
call_schedule m world = let (r, world') = m world in (as_backend (λ e. e.text) r, world')

abbrev pub call_opener : {S A : Type 0} → Action S A OpenError → Handler S A
call_opener m world = let (r, world') = m world in (as_backend (λ e. e.text) r, world')

pub record Calendar (Zone Civil : Type 0) : Type 0 where
  pub zone : String → Option Zone
  pub civil : Text → Option Civil
  -- `to_ambiguous_zoned(..).compatible()`: the civil time resolved to, and its instant in seconds
  -- where that is no less than 0.
  pub compatible : Zone → Civil → Option (Civil × Option ℕ)
  pub same_civil : Civil → Civil → Bool

abbrev zero_seconds : Text
zero_seconds = b':' ∷ b'0' ∷ b'0' ∷ []

abbrev normalized : Text → Option Text
normalized trimmed =
    if utf8_len trimmed == 16
    then some (trimmed ++ zero_seconds)
    else if utf8_len trimmed == 19
    then some trimmed
    else none

abbrev pub is_empty : Text → Bool
is_empty [] = true
is_empty (c ∷ cs) = false

abbrev or_invalid : {A : Type 0} → Option A → Result A ActionError
or_invalid none = err invalid_start_time
or_invalid (some a) = ok a

module _ {S : Type 0} (s : Store S) (schedule : OpenSchedule S) (actor : String)
    (now : ArrivalTime) where
  -- An announcement goes before its schedule, and comes after it.
  abbrev pub clear_start : Handler S (Unit {0})
  clear_start = do
    _ ← call (s.set_starts_at none clear_start_time actor now)
    call_schedule (schedule.set_start_time none)

  abbrev pub set_start : StartTime → Handler S (Unit {0})
  set_start start = do
    _ ← call_schedule (schedule.set_start_time (some (start.expression, start.timezone)))
    call (s.set_starts_at (some (start.epoch_secs, start.timezone)) set_start_time actor now)

module _ {Zone Civil : Type 0} (calendar : Calendar Zone Civil) where
  open calendar use {zone, civil, compatible, same_civil}

  abbrev in_future : ℕ → Text → String → ℕ → Result StartTime ActionError
  in_future now_secs expression timezone epoch_secs =
      if leb epoch_secs now_secs
      then err start_time_in_past
      else ok (record { epoch_secs = epoch_secs; expression = expression; timezone = timezone })

  abbrev not_skipped : Civil → Civil → Option ℕ → Option ℕ
  not_skipped asked resolved instant = if same_civil resolved asked then instant else none

  abbrev resolve :
      ℕ → Text → String → Civil → Option (Civil × Option ℕ) → Result StartTime ActionError
  resolve now_secs expression timezone asked none = err invalid_start_time
  resolve now_secs expression timezone asked (some (resolved, instant)) =
      elim (or_invalid (not_skipped asked resolved instant)) [
        | err e ↦ err e
        | ok epoch_secs ↦ in_future now_secs expression timezone epoch_secs
      ]

  abbrev read_civil : ℕ → Zone → String → Text → Option Civil → Result StartTime ActionError
  read_civil now_secs tz timezone expression none = err invalid_start_time
  read_civil now_secs tz timezone expression (some asked) =
      resolve now_secs expression timezone asked (compatible tz asked)

  abbrev read_text : ℕ → Zone → String → Option Text → Result StartTime ActionError
  read_text now_secs tz timezone none = err invalid_start_time
  read_text now_secs tz timezone (some expression) =
      read_civil now_secs tz timezone expression (civil expression)

  unfoldable pub parse_start_time : Text → String → ℕ → Result StartTime ActionError
  parse_start_time input timezone now_secs = elim (zone timezone) [
    | none ↦ err unknown_timezone
    | some tz ↦ read_text now_secs tz timezone (normalized (trim input))
  ]

  module _ {S : Type 0} (s : Store S) (schedule : OpenSchedule S) (actor : String)
      (now : ArrivalTime) where
    abbrev pub start_at : Text → String → Handler S (Unit {0})
    start_at at timezone = do
      start ← check (parse_start_time at timezone (epoch_seconds now))
      set_start s schedule actor now start

    unfoldable pub apply_start_time : Text → String → Handler S (Unit {0})
    apply_start_time at timezone = do
      state ← load_event s
      _ ← check (debounce_check state now)
      if is_empty (trim at) then clear_start s schedule actor now else start_at at timezone

module _ {S : Type 0} (s : Store S) (opener : Opener S) where
  -- The stamp of an open that this call has made.
  abbrev pub stamp_open : OpenNow → String → ArrivalTime → Handler S OpenNow
  stamp_open opened actor now = do _ ← logged (s.stamp_action open_now actor now); pure opened
  stamp_open already_open actor now = pure already_open

  unfoldable pub apply_open_now : String → ArrivalTime → Handler S OpenNow
  apply_open_now actor now = do
    state ← load_event s
    _ ← check (guard (same state.phase pre_queue) (illegal_transition state.phase active))
    _ ← check (debounce_check state now)
    outcome ← call_opener opener.open_now
    stamp_open outcome actor now
