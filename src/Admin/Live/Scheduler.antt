-- ===== src/Admin/Live/Scheduler.antt =====
-- `SchedulerStore` of crates/admin/src/scheduler.rs: an update of the schedule replaces the whole
-- definition, so it is read first and sent back.
use Prim.Native.String.{String}
use virtual_waiting_room.Prelude.{true, false, Option, none, some, ◌++◌}
use virtual_waiting_room.Prelude.Result.{Result, ok, err}
use virtual_waiting_room.Prelude.Chars.{Text}
use virtual_waiting_room.Prelude.Text.{codes}
use virtual_waiting_room.Assembly.{unwrap_or}
use virtual_waiting_room.Admin.{ScheduleError, Action, OpenSchedule}
use virtual_waiting_room.Admin.Actions.{◌>>=◌}
use virtual_waiting_room.Admin.Live.World.{Schedule, Shared, World, access}

abbrev schedule_error : String → ScheduleError
schedule_error text = record { text = text }

abbrev disabled_placeholder : Text
disabled_placeholder = codes "at(2099-12-31T23:59:59)"

abbrev pub at_expression : Text → Text
at_expression at = codes "at(" ++ (at ++ codes ")")

abbrev pub definition : Option (Text × String) → Schedule → Schedule
definition (some (at, tz)) current = record current {
  expression = some (at_expression at);
  timezone = some tz;
  enabled = true;
}
definition none current = record current {
  expression = some (unwrap_or current.expression disabled_placeholder);
  timezone = some (unwrap_or current.timezone "UTC");
  enabled = false;
}

abbrev pub with_target : Option String → Option String → Schedule → Result Schedule ScheduleError
with_target none window next = err (schedule_error "schedule has no target")
with_target (some target) none next = err (schedule_error "schedule has no flexible time window")
with_target (some target) (some window) next = ok next

unfoldable pub rewrite : Schedule → Option (Text × String) → Result Schedule ScheduleError
rewrite current at = with_target current.target current.flexible_time_window (definition at current)

-- `get_schedule` and `update_schedule`.
unfoldable pub get_schedule : Action Shared Schedule ScheduleError
get_schedule s = (ok s.schedule, s)

unfoldable pub update_schedule : Schedule → Action Shared (Unit {0}) ScheduleError
update_schedule next s = (ok tt, record s { schedule = next })

abbrev pub send : Result Schedule ScheduleError → Action World (Unit {0}) ScheduleError
send (err e) w = (err e, w)
send (ok next) w = access (schedule_error "update_schedule") (update_schedule next) w

unfoldable pub set_start_time : Option (Text × String) → Action World (Unit {0}) ScheduleError
set_start_time at = do
  current ← access (schedule_error "get_schedule") get_schedule
  send (rewrite current at)

abbrev pub scheduler_store : OpenSchedule World
scheduler_store = record { set_start_time = set_start_time }
