-- ===== src/Admin/Live/Apart.antt =====
-- The routine actions of crates/admin/src/lib.rs over the live ports: no two within `DEBOUNCE`.
use Prim.Native.String.{String}
use mathlib.Core.Path.{subst}
use virtual_waiting_room.Prelude.{ℕ, ◌+◌, ◌≤◌, ◌≡◌, Option, some, none}
use virtual_waiting_room.Prelude.Result.{ok}
use virtual_waiting_room.Prelude.Chars.{Text}
use virtual_waiting_room.Ids.{StoredControl, IllegalControl}
use virtual_waiting_room.Ids
use virtual_waiting_room.Admin.{
  ArrivalTime, as_millisecond, epoch_seconds, debounce_millis, ControlState, AdminAction,
  ApplyError, StartTime,
}
use virtual_waiting_room.Admin
use virtual_waiting_room.Admin.Actions.{
  Handler, ◌>>=◌, pure, apply_rate, apply_message, apply_pause, apply_resume,
}
use virtual_waiting_room.Admin.Actions.Schedule.{Calendar, apply_start_time}
use virtual_waiting_room.Admin.Live.World.{World}
use virtual_waiting_room.Admin.Live.Table.{dynamo_store}
use virtual_waiting_room.Admin.Live.Scheduler.{scheduler_store}
use virtual_waiting_room.Admin.Live.Triples.{Outcome, Rivals, bind_rule, pure_rule}
use virtual_waiting_room.Admin.Live.Debounce.{KeepsStamp, Done}
use virtual_waiting_room.Admin.Live.Routine.{
  Whatever, Routinely, apply_rate_rule, apply_message_rule, apply_control_rule,
  apply_start_time_rule,
}

-- The actions that are debounced, with what the operator submits.
pub data Routine : Type 0 where
  rate message : String → Routine
  pause resume : Routine
  start_time : Text → String → Routine

abbrev and_done : {A : Type 0} → Handler World A → Handler World (Unit {0})
and_done m = do _ ← m; pure tt

module _ {Zone Civil : Type 0} (calendar : Calendar Zone Civil)
    (audit_timestamp : ArrivalTime → String) (actor : String) where
  abbrev pub perform : Routine → ArrivalTime → Handler World (Unit {0})
  perform (rate text) now = and_done (apply_rate (dynamo_store audit_timestamp) text actor now)
  perform (message text) now = apply_message (dynamo_store audit_timestamp) text actor now
  perform pause now = apply_pause (dynamo_store audit_timestamp) actor now
  perform resume now = apply_resume (dynamo_store audit_timestamp) actor now
  perform (start_time at timezone) now =
      apply_start_time calendar (dynamo_store audit_timestamp) scheduler_store actor now at timezone

  perform_rule :
      (before : Option ℕ) (r : Routine) (now : ArrivalTime)
      → Routinely before audit_timestamp actor now (perform r now)
  unfolding apply_pause apply_resume
  perform_rule before (rate text) now =
      bind_rule (apply_rate_rule before audit_timestamp actor now text) (λ _. pure_rule (λ s p. p))
  perform_rule before (message text) now = apply_message_rule before audit_timestamp actor now text
  perform_rule before pause now =
      apply_control_rule before audit_timestamp actor now Ids.pause Admin.pause
  perform_rule before resume now =
      apply_control_rule before audit_timestamp actor now Ids.resume Admin.resume
  perform_rule before (start_time at timezone) now =
      apply_start_time_rule before audit_timestamp actor now calendar at timezone

  -- Of two routine actions (a rate, a message, a pause, a resume or a start time) that both succeed,
  -- one after the other, the second has arrived at least `DEBOUNCE` after the first, whatever others
  -- do in between and whatever calls are lost, as long as nobody sets the item's stamp back.
  pub perform_apart :
      (first second : Routine) (now later : ArrivalTime) (w : World)
      → Rivals KeepsStamp w.turns
      → (perform first now w).0 ≡ ok tt
      → (perform second later (perform first now w).1).0 ≡ ok tt
      → as_millisecond now + debounce_millis ≤ as_millisecond later
  perform_apart first second now later w rs a b =
      let one = (perform_rule none first now).run w rs tt in
      let stamped : Done none now (perform first now w).1.shared =
        subst (λ r. Outcome (λ _. Done none now) Whatever r (perform first now w).1.shared) a
          one.0 in
      let two =
        (perform_rule (some (as_millisecond now)) second later).run (perform first now w).1 one.1
          stamped.1 in
      let apart : Done (some (as_millisecond now)) later
          (perform second later (perform first now w).1).1.shared =
        subst
          (λ r.
            Outcome (λ _. Done (some (as_millisecond now)) later) Whatever r
              (perform second later (perform first now w).1).1.shared)
          b two.0 in
      apart.0
