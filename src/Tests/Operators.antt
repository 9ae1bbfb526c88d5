-- ===== src/Tests/Operators.antt =====
-- Runs of the operator's actions, while others act and calls are lost.
use Prim.Native.String.{String}
use virtual_waiting_room.Prelude.{
  ◌==◌, ℕ, ◌+◌, ◌*◌, ◌≤◌, ◌≡◌, refl, inl, inr, true, false, none, some, [], ◌∷◌, arith,
}
use virtual_waiting_room.Prelude.Result.{Result, ok, err}
use virtual_waiting_room.Prelude.Text.{codes}
use virtual_waiting_room.Prelude.Chars.{Text, utf8_len}
use virtual_waiting_room.Items.Attributes.{parse_u32}
use virtual_waiting_room.Rules.{
  path_prefix, validate_rule_fields, validate_from, check_field, is_printable,
}
use virtual_waiting_room.Admin.{
  as_millisecond, debounce_millis, ArrivalTime, GateConfig, too_fast, store, conflict, ApplyError,
}
use virtual_waiting_room.Admin.Config.{encode_gate_config}
use virtual_waiting_room.Admin.Config.Reserve.{WritesDecimal, check_ruleset-encode_gate_config}
use virtual_waiting_room.Admin.Actions.{debounce_check, guard, apply_message}
use virtual_waiting_room.Admin.Actions.Edge.{edge_read_modify_write, apply_fail_open, apply_recover}
use virtual_waiting_room.Admin.Actions.Ruleset.{check_ruleset}
use virtual_waiting_room.Admin.Actions.Schedule.{Calendar, apply_start_time}
use virtual_waiting_room.Admin.Live.World.{
  Shared, fine, lost_request, lost_answer, Turn, World, access,
}
use virtual_waiting_room.Admin.Live.Table.{
  control_state, debounce_predicate, dynamo_store, load, update_message,
}
use virtual_waiting_room.Admin.Live.Kvs.{kvs_store}
use virtual_waiting_room.Admin.Live.Scheduler.{scheduler_store}
use virtual_waiting_room.Admin.Live.Triples.{Outcome}
use virtual_waiting_room.Admin.Live.Attempt.{Applied}
use virtual_waiting_room.Admin.Live.Atomic.{edge_read_modify_write_atomic}
use virtual_waiting_room.Admin.Live.Windows.{IsCovered}
use virtual_waiting_room.Admin.Live.FailOpen.{
  IsOpenUntil, apply_recover_windows, apply_fail_open_windows, apply_fail_open_shortened,
}
use virtual_waiting_room.Admin.Live.Start.{IsArmed, StartOf, apply_start_time-IsArmed}
use virtual_waiting_room.Admin.Live.Apart.{message, perform_apart}
use virtual_waiting_room.Admin.Live.Guards.{debounce_check-debounce_predicate, apply_message_future}
use virtual_waiting_room.Tests.{opened_counters}

abbrev stamp : ArrivalTime → String
stamp now = "2027-01-01T00:00:00Z"

-- A document of forty bytes, whatever it says.
abbrev forty_bytes : GateConfig → Result Text String
forty_bytes cfg = ok (codes "{\"v\":1,\"s\":0,\"f\":0000000000,\"r\":[]}    ")

abbrev at_second : ℕ → ArrivalTime
at_second secs = record { nanos = secs * 1000000000 }

abbrev config : GateConfig
config = record { v = 1; enforce_from = 0; fail_open_until = 600; rules = []; bind_ip = false }

abbrev shared : Shared
shared = record {
  row = record opened_counters { fail_open_until = 500 };
  audit = record {
    last_action = none;
    last_action_by = none;
    last_action_at = none;
    last_action_epoch_ms = some 90000;
    rules_digest = none;
    rules_count = none;
    starts_at_timezone = none;
  };
  kvs = record { config = config; version = 7 };
  schedule = record {
    expression = none;
    timezone = none;
    enabled = false;
    target = some "open_event";
    flexible_time_window = some "OFF";
    others = "";
  };
}

abbrev calm : Turn
calm = record { rival = λ s. s; fault = fine }

abbrev unheard : Turn
unheard = record { rival = λ s. s; fault = lost_answer }

abbrev losing : Turn
losing = record { rival = λ s. s; fault = lost_request }

-- Another operator changes the ruleset.
abbrev changing : Turn
changing = record {
  rival = λ s. record s {
    kvs = record {
      config = record (s.kvs.config) { rules = path_prefix (codes "/shop") ∷ [] };
      version = s.kvs.version + 1;
    };
  };
  fault = fine;
}

abbrev disturbed : World
disturbed = record { shared = shared; turns = calm ∷ calm ∷ changing ∷ [] }

edge_read_modify_write_atomic_example :
    Applied forty_bytes
      (λ cfg. record cfg { bind_ip = true })
      disturbed
      (edge_read_modify_write
        (kvs_store forty_bytes)
        (λ cfg. record cfg { bind_ip = true })
        disturbed)
edge_read_modify_write_atomic_example =
    edge_read_modify_write_atomic forty_bytes (λ cfg. record cfg { bind_ip = true }) disturbed
      ((λ s. inl refl), ((λ s. inl refl), ((λ s. inr (omega arith)), tt))) (tt, (tt, (tt, tt)))

-- The answer of the second call is lost.
abbrev shaken : World
shaken = record { shared = shared; turns = calm ∷ unheard ∷ [] }

apply_recover_windows_example :
    let out : Result (Unit {0}) ApplyError × World =
      apply_recover (dynamo_store stamp) (kvs_store forty_bytes) "op" (at_second 100) shaken in
    Outcome (λ _. IsOpenUntil 0) IsCovered out.0 out.1.shared
apply_recover_windows_example =
    apply_recover_windows forty_bytes stamp "op" (at_second 100) shaken
      ((λ s. (refl, refl)), ((λ s. (refl, refl)), tt)) (omega arith)

ten_minutes : parse_u32 "10" ≡ some 10
unfolding parse_u32
ten_minutes = refl

apply_fail_open_windows_example :
    let out : Result (Unit {0}) ApplyError × World =
      apply_fail_open
        (dynamo_store stamp)
        (kvs_store forty_bytes)
        "10"
        "op"
        (at_second 100)
        shaken in
    Outcome (λ _. IsOpenUntil 700) IsCovered out.0 out.1.shared
apply_fail_open_windows_example =
    apply_fail_open_windows forty_bytes stamp "op" (at_second 100) shaken
      ((λ s. (refl, refl)), ((λ s. (refl, refl)), tt)) "10" 10 (rw ten_minutes refl) (omega arith)
      (omega arith)

one_minute : parse_u32 "1" ≡ some 1
unfolding parse_u32
one_minute = refl

apply_fail_open_shortened_example :
    let w : World = record { shared = shared; turns = calm ∷ calm ∷ calm ∷ calm ∷ losing ∷ [] } in
    ¬ IsCovered
      (apply_fail_open
        (dynamo_store stamp)
        (kvs_store forty_bytes)
        "1"
        "op"
        (at_second 100)
        w).1.shared
unfolding encode_gate_config validate_rule_fields validate_from utf8_len
apply_fail_open_shortened_example =
    apply_fail_open_shortened forty_bytes stamp "op" "1" (at_second 100) 1 shared _
      (rw one_minute refl) (omega arith) refl

abbrev calendar : Calendar (Unit {0}) ℕ
calendar = record {
  zone = λ name. some tt;
  civil = λ text. some 500;
  compatible = λ tz civil. some (civil, some civil);
  same_civil = λ a b. a == b;
}

apply_start_time-IsArmed_example :
    let out : Result (Unit {0}) ApplyError × World =
      apply_start_time calendar
        (dynamo_store stamp)
        scheduler_store
        "op"
        (at_second 100)
        (codes "2027-01-01T10:00")
        "UTC"
        shaken in
    Outcome
      (λ _. StartOf calendar stamp "op" (at_second 100) (codes "2027-01-01T10:00") "UTC")
      IsArmed
      out.0
      out.1.shared
apply_start_time-IsArmed_example =
    apply_start_time-IsArmed calendar stamp "op" (at_second 100) (codes "2027-01-01T10:00") "UTC"
      shaken ((λ s. (refl, refl)), ((λ s. (refl, refl)), tt)) (λ at e. absurd (cc (e)))

abbrev quiet : World
quiet = record { shared = shared; turns = [] }

perform_apart_example :
    as_millisecond (at_second 100) + debounce_millis ≤ as_millisecond (at_second 105)
unfolding apply_message load access update_message debounce_check debounce_predicate control_state
perform_apart_example =
    perform_apart calendar stamp "op" (message "hello") (message "sold out") (at_second 100)
      (at_second 105) quiet tt refl refl

debounce_check-debounce_predicate_example :
    debounce_check (control_state shared) (at_second 91)
    ≡ guard (debounce_predicate shared (at_second 91)) too_fast
debounce_check-debounce_predicate_example =
    debounce_check-debounce_predicate shared (at_second 91) 90000 refl (omega arith) (omega arith)

apply_message_future_example :
    (debounce_check (control_state shared) (at_second 80) ≡ ok tt)
    × (apply_message (dynamo_store stamp) "hello" "op" (at_second 80) quiet
        ≡ (err (store conflict), quiet))
apply_message_future_example =
    apply_message_future stamp "hello" "op" shared (at_second 80) 90000 refl (omega arith)

forty_bytes-WritesDecimal : WritesDecimal forty_bytes
forty_bytes-WritesDecimal cfg until json small e = (json, e, omega arith)

check_ruleset-encode_gate_config_example :
    (json : Text) × (encode_gate_config forty_bytes
        (record config { rules = path_prefix (codes "/shop") ∷ []; fail_open_until = 4000000000 })
      ≡ ok json)
unfolding check_ruleset encode_gate_config validate_rule_fields validate_from check_field
    is_printable utf8_len
check_ruleset-encode_gate_config_example =
    check_ruleset-encode_gate_config forty_bytes forty_bytes-WritesDecimal
      (path_prefix (codes "/shop") ∷ []) config 4000000000 refl (omega arith)
