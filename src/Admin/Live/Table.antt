-- ===== src/Admin/Live/Table.antt =====
-- `DynamoStore` of crates/admin/src/dynamo.rs: each operation is one conditional update of the
-- item, but for a fail-open's, which a lost race repeats without its stamp.
use Prim.Native.String.{String}
use virtual_waiting_room.Prelude.{
  ℕ, ◌+◌, ◌&&◌, Bool, true, false, Option, none, some, leb, ◌==◌, if◌then◌else◌,
}
use virtual_waiting_room.Prelude.Result.{Result, ok, err}
use virtual_waiting_room.Ids.{Phase, maintenance, StoredControl, open_control, paused_control}
use virtual_waiting_room.Items.Counters.{Counters}
use virtual_waiting_room.Admin.{
  ArrivalTime, as_millisecond, debounce_millis, ControlState, AdminAction, as_str, StoreError,
  conflict, backend, Action, Store,
}
use virtual_waiting_room.Admin
use virtual_waiting_room.Admin.Phases.{same}
use virtual_waiting_room.Admin.Live.World.{Audit, Shared, World, access}

-- `Timestamp::from_millisecond`: no instant lies after the year 9999.
abbrev pub max_timestamp_millis : ℕ
max_timestamp_millis = 253402207200999

abbrev usable : Option ℕ → Option ℕ
usable none = none
usable (some ms) = if leb ms max_timestamp_millis then some ms else none

unfoldable pub control_state : Shared → ControlState
control_state s = record {
  event_id = s.row.event_id;
  phase = s.row.phase;
  serving_counter = s.row.serving_counter;
  queue_counter = s.row.queue_counter;
  participant_count = s.row.participant_count;
  target_rate = s.row.target_rate;
  message = s.row.message;
  stored_control = s.row.stored_control;
  fail_open_until = s.row.fail_open_until;
  last_action = s.audit.last_action;
  last_action_by = s.audit.last_action_by;
  last_action_at = s.audit.last_action_at;
  last_action_time = usable s.audit.last_action_epoch_ms;
  starts_at = s.row.starts_at;
  starts_at_timezone = s.audit.starts_at_timezone;
}

abbrev pub at_most : Option ℕ → ℕ → Bool
at_most none limit = true
at_most (some ms) limit = leb ms limit

-- `DEBOUNCE_PREDICATE`: no stamp, or one no later than the cutoff, `now` less the window.
unfoldable pub debounce_predicate : Shared → ArrivalTime → Bool
debounce_predicate s now = elim s.audit.last_action_epoch_ms [
  | none ↦ true
  | some ms ↦ leb (ms + debounce_millis) (as_millisecond now)
]

-- `STAMP_PREDICATE`.
unfoldable pub stamp_predicate : Shared → ArrivalTime → Bool
stamp_predicate s now = at_most s.audit.last_action_epoch_ms (as_millisecond now)

abbrev pub same_control : StoredControl → StoredControl → Bool
same_control open_control open_control = true
same_control paused_control paused_control = true
same_control a b = false

-- `guard_expected_rate`.
abbrev pub same_rate : Option ℕ → Option ℕ → Bool
same_rate none none = true
same_rate (some a) (some b) = a == b
same_rate a b = false

-- An `UpdateItem` under a condition.
abbrev pub update_if : Bool → Shared → Shared → Result (Unit {0}) StoreError × Shared
update_if holds s after = if holds then (ok tt, after) else (err conflict, s)

abbrev pub lost : StoreError
lost = backend "update_item"

-- `audit_timestamp` prints an instant.
module _ (audit_timestamp : ArrivalTime → String) where
  -- `apply_audit_values`.
  abbrev pub stamped : AdminAction → String → ArrivalTime → Audit → Audit
  stamped label actor now a = record a {
    last_action = some (as_str label);
    last_action_by = some actor;
    last_action_at = some (audit_timestamp now);
    last_action_epoch_ms = some (as_millisecond now);
  }

  abbrev pub put_row : Counters → AdminAction → String → ArrivalTime → Shared → Shared
  put_row row label actor now s = record s { row = row; audit = stamped label actor now s.audit }

  unfoldable pub update_phase :
      Phase → Phase → AdminAction → String → ArrivalTime → Action Shared (Unit {0}) StoreError
  update_phase from to label actor now s =
      update_if (same s.row.phase from) s
        (put_row (record (s.row) { phase = to }) label actor now s)

  unfoldable pub update_rate :
      Option ℕ → ℕ → String → ArrivalTime → Action Shared (Unit {0}) StoreError
  update_rate expected rate actor now s =
      update_if (same_rate s.row.target_rate expected && debounce_predicate s now) s
        (put_row (record (s.row) { target_rate = some rate }) Admin.set_rate actor now s)

  unfoldable pub update_message :
      String → String → ArrivalTime → Action Shared (Unit {0}) StoreError
  update_message message actor now s =
      update_if (debounce_predicate s now) s
        (put_row (record (s.row) { message = some message }) Admin.set_message actor now s)

  unfoldable pub update_control :
      StoredControl
      → StoredControl
      → AdminAction
      → String
      → ArrivalTime
      → Action Shared (Unit {0}) StoreError
  update_control from to label actor now s =
      update_if (same_control s.row.stored_control from && debounce_predicate s now) s
        (put_row (record (s.row) { stored_control = to }) label actor now s)

  unfoldable pub update_fail_open :
      ℕ → AdminAction → String → ArrivalTime → Action Shared (Unit {0}) StoreError
  update_fail_open until label actor now s =
      update_if (stamp_predicate s now) s
        (put_row (record (s.row) { fail_open_until = until }) label actor now s)

  -- The attributes that are set, or removed.
  abbrev pub put_starts_at :
      Option (ℕ × String) → AdminAction → String → ArrivalTime → Shared → Shared
  put_starts_at none label actor now s = record s {
    row = record (s.row) { starts_at = none };
    audit = stamped label actor now (record (s.audit) { starts_at_timezone = none });
  }
  put_starts_at (some (secs, tz)) label actor now s = record s {
    row = record (s.row) { starts_at = some secs };
    audit = stamped label actor now (record (s.audit) { starts_at_timezone = some tz });
  }

  unfoldable pub update_starts_at :
      Option (ℕ × String) → AdminAction → String → ArrivalTime → Action Shared (Unit {0}) StoreError
  update_starts_at at label actor now s =
      update_if (debounce_predicate s now) s (put_starts_at at label actor now s)

  unfoldable pub update_rules_audit :
      String → ℕ → String → ArrivalTime → Action Shared (Unit {0}) StoreError
  update_rules_audit digest count actor now s = update_if (stamp_predicate s now) s (record s {
    audit =
        stamped Admin.set_rules actor now
          (record (s.audit) { rules_digest = some digest; rules_count = some count });
  })

  unfoldable pub update_stamp :
      AdminAction → String → ArrivalTime → Action Shared (Unit {0}) StoreError
  update_stamp label actor now s =
      update_if (stamp_predicate s now) s (put_row s.row label actor now s)

  -- The unconditional repetition after a lost race.
  abbrev pub fallback : ℕ → Action Shared (Unit {0}) StoreError
  fallback until s = (ok tt, record s { row = record (s.row) { fail_open_until = until } })

  abbrev pub or_fallback :
      ℕ → Result (Unit {0}) StoreError × World → Result (Unit {0}) StoreError × World
  or_fallback until (ok done, w) = (ok tt, w)
  or_fallback until (err conflict, w) = access lost (fallback until) w
  or_fallback until (err (backend e), w) = (err (backend e), w)

  unfoldable pub set_fail_open_until :
      ℕ → AdminAction → String → ArrivalTime → Action World (Unit {0}) StoreError
  set_fail_open_until until label actor now w =
      or_fallback until (access lost (update_fail_open until label actor now) w)

  unfoldable pub load : Action World (Option ControlState) StoreError
  load = access (backend "get_item") (λ s. (ok (some (control_state s)), s))

  abbrev pub dynamo_store : Store World
  dynamo_store = record {
    load = load;
    set_phase = λ from to label actor now. access lost (update_phase from to label actor now);
    set_rate = λ expected rate actor now. access lost (update_rate expected rate actor now);
    set_message = λ message actor now. access lost (update_message message actor now);
    set_stored_control =
        λ from to label actor now. access lost (update_control from to label actor now);
    set_fail_open_until = set_fail_open_until;
    set_starts_at = λ at label actor now. access lost (update_starts_at at label actor now);
    set_rules_audit =
        λ digest count actor now. access lost (update_rules_audit digest count actor now);
    stamp_action = λ label actor now. access lost (update_stamp label actor now);
    force_maintenance = λ from actor now.
        access lost (update_phase from maintenance Admin.force_maintenance actor now);
  }
