-- ===== src/Admin/Live/Loading.antt =====
-- What a handler knows after it has loaded the event, or read the edge's document.
use virtual_waiting_room.Prelude.{refl, Option, none, some}
use virtual_waiting_room.Admin.{ArrivalTime, ControlState}
use virtual_waiting_room.Admin.Actions.{load_event, found}
use virtual_waiting_room.Admin.Live.World.{Shared}
use virtual_waiting_room.Admin.Live.Table.{control_state, dynamo_store, load}
use virtual_waiting_room.Admin.Live.Kvs.{read_config, describe, get_key}
use virtual_waiting_room.Admin.Live.Triples.{
  Triple, access_rule, read_rule, bind_rule, call_rule, pure_rule,
}
use Prim.Native.String.{String}

module _ (R : Shared → Shared → Type 0) (P : Shared → Type 0)
    (good : ControlState → Shared → Type 0) (stable : (s r : Shared) → R s r → P s → P r)
    (seen : (s : Shared) → P s → good (control_state s) s) where
  abbrev Loaded : Option ControlState → Shared → Type 0
  Loaded none s = P s
  Loaded (some cs) s = good cs s

  found_rule : (loaded : Option ControlState) → Triple R (Loaded loaded) (found loaded) good P
  found_rule none = record { run = λ w rs p. (p, rs) }
  found_rule (some cs) = pure_rule (λ s p. p)

  pub load_event_rule :
      (audit_timestamp : ArrivalTime → String)
      → Triple R P (load_event (dynamo_store audit_timestamp)) good P
  unfolding load
  load_event_rule audit_timestamp =
      bind_rule (call_rule (access_rule {good = Loaded} _ _ stable seen (λ s p. (p, p)))) found_rule

module _ {R : Shared → Shared → Type 0} {P : Shared → Type 0}
    (stable : (s r : Shared) → R s r → P s → P r) where
  pub read_config_rule : Triple R P read_config (λ _. P) P
  unfolding read_config describe get_key
  read_config_rule = bind_rule (read_rule _ describe (λ s. (_, refl)) stable) (λ etag.
      bind_rule (read_rule _ get_key (λ s. (_, refl)) stable) (λ cfg. pure_rule (λ s p. p)))
