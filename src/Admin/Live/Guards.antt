-- ===== src/Admin/Live/Guards.antt =====
-- The two halves of the debounce of crates/admin: `debounce_check` in the handler and
-- `DEBOUNCE_PREDICATE` at the table.
use Prim.Native.String.{String}
use virtual_waiting_room.Prelude.{ℕ, ◌*◌, ◌≤◌, ◌<◌, ◌≡◌, refl, false, some, arith, []}
use virtual_waiting_room.Prelude.Result.{ok, err}
use virtual_waiting_room.Admin.{ArrivalTime, too_fast, store, conflict}
use virtual_waiting_room.Admin.Actions.{debounce_check, guard, apply_message}
use virtual_waiting_room.Admin.Live.World.{Shared, World, access}
use virtual_waiting_room.Admin.Live.Table.{
  control_state, debounce_predicate, max_timestamp_millis, dynamo_store, load, update_message,
}

-- For a stamp that is a representable instant and not later than now, the handler's check and the
-- table's condition accept the same actions.
pub debounce_check-debounce_predicate :
    (s : Shared) (now : ArrivalTime) (ms : ℕ)
    → s.audit.last_action_epoch_ms ≡ some ms
    → ms ≤ max_timestamp_millis
    → ms * 1000000 ≤ now.nanos
    → debounce_check (control_state s) now ≡ guard (debounce_predicate s now) too_fast
unfolding debounce_check debounce_predicate control_state
debounce_check-debounce_predicate s now ms e representable past = ground arith

future_passes :
    (s : Shared) (now : ArrivalTime) (ms : ℕ)
    → s.audit.last_action_epoch_ms ≡ some ms
    → now.nanos < ms * 1000000
    → debounce_check (control_state s) now ≡ ok tt
unfolding debounce_check control_state
future_passes s now ms e future = ground arith

-- For a stamp later than now, the handler's check accepts an action that the table's condition then
-- refuses: `apply_message` of an existing event answers with a conflict and changes nothing, though
-- nobody else acts.
pub apply_message_future :
    (audit_timestamp : ArrivalTime → String) (text actor : String) (s : Shared) (now : ArrivalTime)
    (ms : ℕ)
    → s.audit.last_action_epoch_ms ≡ some ms
    → now.nanos < ms * 1000000
    → let w : World = record { shared = s; turns = [] } in
      (debounce_check (control_state s) now ≡ ok tt)
      × (apply_message (dynamo_store audit_timestamp) text actor now w ≡ (err (store conflict), w))
unfolding debounce_predicate apply_message load access update_message
apply_message_future audit_timestamp text actor s now ms e future =
    let passes : debounce_check (control_state s) now ≡ ok tt = future_passes s now ms e future in
    let refuses : debounce_predicate s now ≡ false = ground arith in
    (passes, rw (passes, refuses) refl)
