-- ===== src/Admin/Actions/Edge.antt =====
-- The operations of crates/admin/src/lib.rs that touch the edge gate's store, the open schedule or
-- the opener beside the table. An error's `to_string` stands as the text that it carries.
use Prim.Native.String.{String}
use virtual_waiting_room.Prelude.{
  ℕ, ◌*◌, ◌||◌, Bool, Option, none, some, ltb, ◌==◌, if◌then◌else◌, saturating_add,
}
use virtual_waiting_room.Prelude.Result.{Result, ok, err}
use virtual_waiting_room.Items.Attributes.{parse_u32}
use virtual_waiting_room.Admin.{
  ArrivalTime, epoch_seconds, max_fail_open_minutes, GateConfig, EdgeStoreError, fail_open, recover,
  set_ip_binding, StoreError, backend, ActionError, invalid_duration, ApplyError, store, Action,
  Store, EdgeConfigStore,
}
use virtual_waiting_room.Admin.Actions.{Handler, ◌>>=◌, pure, call, check, load_event}

-- `map_err(|e| StoreError::Backend(e.to_string()))?`.
abbrev pub as_backend : {E A : Type 0} → (E → String) → Result A E → Result A ApplyError
as_backend text (ok a) = ok a
as_backend text (err e) = err (store (backend (text e)))

abbrev pub call_edge : {S A : Type 0} → Action S A EdgeStoreError → Handler S A
call_edge m world = let (r, world') = m world in (as_backend (λ e. e.text) r, world')

module _ {S : Type 0} (edge : EdgeConfigStore S) (mutate : GateConfig → GateConfig) where
  -- The second, last attempt.
  abbrev pub write_again : Action S GateConfig EdgeStoreError
  write_again = do
    (cfg, etag) ← edge.read_config
    _ ← edge.write_config etag (mutate cfg)
    pure (mutate cfg)

  abbrev pub or_again :
      GateConfig → Result (Unit {0}) EdgeStoreError × S → Result GateConfig EdgeStoreError × S
  or_again cfg (ok done, world) = (ok cfg, world)
  or_again cfg (err e, world) = write_again world

  unfoldable pub edge_read_modify_write : Action S GateConfig EdgeStoreError
  edge_read_modify_write = do
    (cfg, etag) ← edge.read_config
    λ world. or_again (mutate cfg) (edge.write_config etag (mutate cfg) world)

abbrev pub parse_minutes : Option ℕ → Result ℕ ActionError
parse_minutes none = err invalid_duration
parse_minutes (some minutes) =
    if minutes == 0 || ltb max_fail_open_minutes minutes then err invalid_duration else ok minutes

-- A failed audit stamp is logged and no more.
abbrev pub logged : {S : Type 0} → Action S (Unit {0}) StoreError → Handler S (Unit {0})
logged m world = (ok tt, (m world).1)

module _ {S : Type 0} (s : Store S) (edge : EdgeConfigStore S) where
  unfoldable pub apply_fail_open : String → String → ArrivalTime → Handler S (Unit {0})
  apply_fail_open text actor now = do
    minutes ← check (parse_minutes (parse_u32 text))
    _ ← load_event s
    let until = saturating_add (epoch_seconds now) (minutes * 60)
    _ ← call_edge (edge_read_modify_write edge (λ cfg. record cfg { fail_open_until = until }))
    call (s.set_fail_open_until until fail_open actor now)

  unfoldable pub apply_recover : String → ArrivalTime → Handler S (Unit {0})
  apply_recover actor now = do
    _ ← load_event s
    _ ← call (s.set_fail_open_until 0 recover actor now)
    _ ← call_edge (edge_read_modify_write edge (λ cfg. record cfg { fail_open_until = 0 }))
    pure tt

  unfoldable pub apply_ip_binding : Bool → String → ArrivalTime → Handler S (Unit {0})
  apply_ip_binding on actor now = do
    _ ← load_event s
    _ ← call_edge (edge_read_modify_write edge (λ cfg. record cfg { bind_ip = on }))
    logged (s.stamp_action set_ip_binding actor now)
