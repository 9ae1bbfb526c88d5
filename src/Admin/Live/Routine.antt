-- ===== src/Admin/Live/Routine.antt =====
-- Each routine action of crates/admin/src/lib.rs over the live ports succeeds only where the item's
-- stamp is old enough, and stamps the item.
use Prim.Native.String.{String}
use virtual_waiting_room.Prelude.{ℕ, refl, Bool, true, false, Option, some, none, if◌then◌else◌}
use virtual_waiting_room.Prelude.Result.{Result}
use virtual_waiting_room.Prelude.Chars.{Text, trim}
use virtual_waiting_room.Ids.{StoredControl, IllegalControl}
use virtual_waiting_room.Admin.{ArrivalTime, as_millisecond, ControlState, AdminAction}
use virtual_waiting_room.Admin.Actions.{
  Handler, ◌>>=◌, check, load_event, debounce_check, apply_rate, apply_message, apply_control,
}
use virtual_waiting_room.Admin.Actions.Schedule.{
  Calendar, clear_start, start_at, is_empty, apply_start_time,
}
use virtual_waiting_room.Admin.Live.World.{Shared, Schedule, World}
use virtual_waiting_room.Admin.Live.Table.{dynamo_store}
use virtual_waiting_room.Admin.Live.Scheduler.{
  scheduler_store, set_start_time, send, rewrite, with_target, definition, get_schedule,
  update_schedule,
}
use virtual_waiting_room.Admin.Live.Triples.{
  Triple, access_rule, read_rule, bind_rule, call_rule, call_schedule_rule, check_rule, pure_rule,
  weaken_bad,
}
use virtual_waiting_room.Admin.Live.Loading.{load_event_rule}
use virtual_waiting_room.Admin.Live.Debounce.{
  KeepsStamp, Known, Known-stable, Done, write_rule, update_rate-IsDebounced,
  update_message-IsDebounced, update_control-IsDebounced, update_starts_at-IsDebounced,
}

abbrev pub Whatever : Shared → Type 0
Whatever s = Unit

-- The schedule's calls leave what the item says alone.
module _ (P : Shared → Type 0) (stable : (s r : Shared) → KeepsStamp s r → P s → P r)
    (apart : (s : Shared) (next : Schedule) → P s → P (record s { schedule = next })) where
  send_rule :
      (at : Option (Text × String)) (current : Schedule) (target window : Option String)
      → Triple KeepsStamp P
          (send (with_target target window (definition at current)))
          (λ _. P)
          Whatever
  unfolding update_schedule
  send_rule at current none window = record { run = λ w rs p. (tt, rs) }
  send_rule at current (some target) none = record { run = λ w rs p. (tt, rs) }
  send_rule at current (some target) (some window) =
      access_rule _ (update_schedule (definition at current)) stable (λ s p. apart s _ p)
        (λ s p. (tt, tt))

  set_start_time_rule :
      (at : Option (Text × String)) → Triple KeepsStamp P (set_start_time at) (λ _. P) Whatever
  unfolding set_start_time get_schedule rewrite
  set_start_time_rule at =
      bind_rule (weaken_bad (read_rule _ get_schedule (λ s. (_, refl)) stable) (λ s p. tt))
        (λ current. send_rule at current current.target current.flexible_time_window)

module _ (before : Option ℕ) (audit_timestamp : ArrivalTime → String) (actor : String)
    (now : ArrivalTime) where
  abbrev pub Routinely : {A : Type 0} → Handler World A → Type 0
  Routinely m = Triple KeepsStamp (Known before) m (λ _. Done before now) Whatever

  loaded_rule :
      Triple KeepsStamp
        (Known before)
        (load_event (dynamo_store audit_timestamp))
        (λ _. Known before)
        Whatever
  loaded_rule =
      weaken_bad
        (load_event_rule KeepsStamp (Known before) (λ _. Known before) (Known-stable before)
          (λ s p. p) audit_timestamp)
        (λ s p. tt)

  -- The part that the routine actions share.
  debounced_rule :
      {A : Type 0} {f : ControlState → Handler World A}
      → ((state : ControlState) → Routinely (f state))
      → Routinely (
          load_event (dynamo_store audit_timestamp) >>= λ state.
          check (debounce_check state now) >>= λ _. f state)
  debounced_rule rule = bind_rule loaded_rule (λ state.
      bind_rule {mid = λ _. Known before} (check_rule _ (λ _ _ s p. p) (λ s p. tt))
        (λ _. rule state))

  pub apply_rate_rule :
      (text : String) → Routinely (apply_rate (dynamo_store audit_timestamp) text actor now)
  unfolding apply_rate
  apply_rate_rule text =
      bind_rule {mid = λ _. Known before} (check_rule _ (λ _ _ s p. p) (λ s p. tt)) (λ rate.
        debounced_rule (λ state.
          bind_rule {mid = λ _. Done before now}
            (call_rule (
              write_rule before now _
                (update_rate-IsDebounced before now audit_timestamp actor state.target_rate rate)))
            (λ _. pure_rule (λ s p. p))))

  pub apply_message_rule :
      (message : String)
      → Routinely (apply_message (dynamo_store audit_timestamp) message actor now)
  unfolding apply_message
  apply_message_rule message = debounced_rule (λ state. call_rule (
      write_rule before now _
        (update_message-IsDebounced before now audit_timestamp actor message)))

  pub apply_control_rule :
      (transition : StoredControl → Result StoredControl IllegalControl) (label : AdminAction)
      → Routinely (apply_control (dynamo_store audit_timestamp) transition label actor now)
  unfolding apply_control
  apply_control_rule transition label = debounced_rule (λ state.
      bind_rule {mid = λ _. Known before} (check_rule _ (λ _ _ s p. p) (λ s p. tt)) (λ to.
        call_rule (
          write_rule before now _ (
            update_control-IsDebounced before now audit_timestamp actor state.stored_control to
              label))))

  Done-stable : (s r : Shared) → KeepsStamp s r → Done before now s → Done before now r
  Done-stable s r k p = (p.0, k (as_millisecond now) p.1)

  Known-schedule :
      (s : Shared) (next : Schedule) → Known before s → Known before (record s { schedule = next })
  Known-schedule s next p =
      elim before as (λ b. Known b s → Known b (record s { schedule = next })) [
        | none ↦ λ q. q
        | some t ↦ λ q. q
      ]
        p

  module _ {Zone Civil : Type 0} (calendar : Calendar Zone Civil) (at : Text)
      (timezone : String) where
    start_rule :
        (blank : Bool)
        → Routinely (
            if blank
            then clear_start (dynamo_store audit_timestamp) scheduler_store actor now
            else start_at calendar
                (dynamo_store audit_timestamp)
                scheduler_store
                actor
                now
                at
                timezone)
    start_rule true =
        bind_rule {mid = λ _. Done before now}
          (call_rule (
            write_rule before now _
              (update_starts_at-IsDebounced before now audit_timestamp actor none _)))
          (λ _.
            call_schedule_rule
              (set_start_time_rule (Done before now) Done-stable (λ s next p. p) none))
    start_rule false =
        bind_rule {mid = λ _. Known before} (check_rule _ (λ _ _ s p. p) (λ s p. tt)) (λ start.
          bind_rule {mid = λ _. Known before}
            (call_schedule_rule
              (set_start_time_rule (Known before) (Known-stable before) Known-schedule _))
            (λ _. call_rule (
              write_rule before now _ (
                update_starts_at-IsDebounced before now audit_timestamp actor
                  (some (start.epoch_secs, start.timezone)) _))))

    pub apply_start_time_rule : Routinely (
        apply_start_time calendar
          (dynamo_store audit_timestamp)
          scheduler_store
          actor
          now
          at
          timezone)
    unfolding apply_start_time
    apply_start_time_rule = debounced_rule (λ state. start_rule (is_empty (trim at)))
