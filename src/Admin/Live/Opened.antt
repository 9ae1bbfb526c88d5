-- ===== src/Admin/Live/Opened.antt =====
-- The phase, as `apply_phase` and `apply_force_maintenance` of crates/admin/src/lib.rs move it over
-- the live ports: an event is active only after it has been opened.
use Prim.Native.String.{String}
use virtual_waiting_room.Prelude.{◌≡◌, true}
use virtual_waiting_room.Prelude.Result.{Result}
use virtual_waiting_room.Ids.{Phase, active}
use virtual_waiting_room.Admin.{ArrivalTime, ControlState}
use virtual_waiting_room.Admin
use virtual_waiting_room.Admin.Actions.{is_some}
use virtual_waiting_room.Admin.Live.World.{Shared, World}

-- The open has written its outputs.
abbrev pub HasCohort : Shared → Type 0
HasCohort s = is_some s.row.participant_count ≡ true

abbrev pub IsOpenIfActive : Shared → Type 0
IsOpenIfActive s = s.row.phase ≡ active → HasCohort s

-- Others never take the outputs back, and make no unopened event active.
abbrev pub KeepsOpen : Shared → Shared → Type 0
KeepsOpen s r = (HasCohort s → HasCohort r) × (IsOpenIfActive s → IsOpenIfActive r)

-- The event may become `to`, and it is in that phase.
abbrev May : Phase → Shared → Type 0
May to s = (to ≡ active → HasCohort s) × IsOpenIfActive s

abbrev pub IsIn : Phase → Shared → Type 0
IsIn to s = (s.row.phase ≡ to) × IsOpenIfActive s

module _ (audit_timestamp : ArrivalTime → String) (actor : String) (now : ArrivalTime) where
  abbrev Knows : ControlState → Shared → Type 0
  Knows state s = (is_some state.participant_count ≡ true → HasCohort s) × IsOpenIfActive s
