-- ===== src/Admin/Live/World.antt =====
-- What the admin service shares with others, and the turns in which they act on it.
use Prim.Native.String.{String}
use virtual_waiting_room.Prelude.{ℕ, Bool, Option, List, [], ◌∷◌}
use virtual_waiting_room.Prelude.Result.{Result, err}
use virtual_waiting_room.Prelude.Chars.{Text}
use virtual_waiting_room.Items.Counters.{Counters}
use virtual_waiting_room.Admin.{GateConfig, Action}

-- The audit attributes of the item.
pub record Audit : Type 0 where
  pub last_action : Option String
  pub last_action_by : Option String
  pub last_action_at : Option String
  pub last_action_epoch_ms : Option ℕ
  pub rules_digest : Option String
  pub rules_count : Option ℕ
  pub starts_at_timezone : Option String

-- The edge store: its document, and its version, which each put raises.
pub record Kvs : Type 0 where
  pub config : GateConfig
  pub version : ℕ

-- The one-time schedule of the open. Its target, its time window and its other fields are only
-- carried.
pub record Schedule : Type 0 where
  pub expression : Option Text
  pub timezone : Option String
  pub enabled : Bool
  pub target : Option String
  pub flexible_time_window : Option String
  pub others : String

pub record Shared : Type 0 where
  pub row : Counters
  pub audit : Audit
  pub kvs : Kvs
  pub schedule : Schedule

-- A call is served, or its request or its answer is lost.
pub data Fault : Type 0 where
  fine lost_request lost_answer : Fault

-- What others do before a call, and what becomes of the call.
pub record Turn : Type 0 where
  pub rival : Shared → Shared
  pub fault : Fault

pub record World : Type 0 where
  pub shared : Shared
  pub turns : List Turn

module _ {A E : Type 0} (error : E) where
  abbrev pub served : Fault → Shared → Result A E × Shared → Result A E × Shared
  served fine before out = out
  served lost_request before out = (err error, before)
  served lost_answer before (r, after) = (err error, after)

  abbrev pub access_at : Action Shared A E → Shared → List Turn → Result A E × World
  access_at op shared [] = let (r, after) = op shared in (r, record { shared = after; turns = [] })
  access_at op shared (turn ∷ turns) =
      let before = turn.rival shared in
      let (r, after) = served turn.fault before (op before) in
      (r, record { shared = after; turns = turns })

  -- One call of a service.
  unfoldable pub access : Action Shared A E → Action World A E
  access op w = access_at op w.shared w.turns
