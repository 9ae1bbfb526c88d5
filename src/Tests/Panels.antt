-- ===== src/Tests/Panels.antt =====
-- The readiness panel of one deployment that is ready. A float is its number, and a calendar is asked
-- for one date.
use virtual_waiting_room.Prelude.{
  ℕ, ◌≡◌, ◌≤◌, ◌↔◌, refl, Option, none, some, List, [], ◌∷◌, ltb, map, true, false,
}
use virtual_waiting_room.Prelude.Text.{codes}
use virtual_waiting_room.Prelude.Result.{ok}
use virtual_waiting_room.Prelude.Int.{ℤ, pos}
use virtual_waiting_room.Prelude.Chars.{Text}
use virtual_waiting_room.Prelude.Decimal.{to_string}
use virtual_waiting_room.Rules.{path_prefix}
use virtual_waiting_room.Admin.{GateConfig}
use virtual_waiting_room.Admin.Readiness.{
  per_check_timeout, all_checks, WarmTargets, no_cookies, Row,
}
use virtual_waiting_room.Admin.Readiness.{worst}
use virtual_waiting_room.Admin.Readiness.Judge.{
  evaluate_warm_throughput, judge_tables, judge_table, evaluate_dynamodb_limits,
  evaluate_api_gateway_throttle, evaluate_reserved_concurrency, evaluate_open_schedule, at_epoch,
  strip_close, evaluate_controller_schedule, evaluate_gate_ruleset, evaluate_status_caching,
  evaluate_gate_association,
}
use virtual_waiting_room.Admin.Readiness.Panel.{read_warm, after, never, ReadinessProbe, run_checks}
use virtual_waiting_room.Admin.Readiness.Settled.{settled_rows, run_checks_in_time}
use virtual_waiting_room.Admin.Readiness.Parts.{AllPass}
use virtual_waiting_room.Admin.Readiness.Green.{IsReady, run_checks-pass}

abbrev on_that_day : Text → Text → Option ℤ
on_that_day date timezone = some (pos 5000)

abbrev targets : WarmTargets
targets = record { write_units = pos 12000; read_units = pos 12000 }

abbrev gate : GateConfig
gate = record {
  v = 1;
  enforce_from = 0;
  fail_open_until = 0;
  rules = path_prefix (codes "/shop") ∷ [];
  bind_ip = false;
}

abbrev probe : ReadinessProbe ℕ
probe = record {
  warm = λ table. after 20 (
      ok (record {
        write_units = some (pos 12000);
        read_units = some (pos 12000);
        warming = false;
      }));
  limits = after 10 (
      ok (record {
        table_max_write = some (pos 80000);
        table_max_read = none;
        account_max_write = none;
        account_max_read = none;
      }));
  throttle = after 3000 (ok (record { rate_limit = some 20000; burst_limit = none }));
  reserved_concurrency = after 15 (ok (some (pos 100)));
  schedule = λ kind. after 40 (
      ok (
        some (record {
          enabled = true;
          expression = codes "at(2027-01-01T10:00:00)";
          timezone = codes "UTC";
        })));
  edge_facts = after 30 (
      ok (
        some (record {
          status_path = "/status";
          status_caching = some (record { min_ttl = pos 1; cookies = no_cookies });
          gate_on_default = true;
          gate_elsewhere = [];
        })));
  read_config = after 60 (ok (gate, record { version = 7 }));
}

-- One read never comes back.
abbrev hanging : ReadinessProbe ℕ
hanging = record probe { throttle = never }

run_checks_in_time_example :
    (ms : ℕ) × (panel : List Row) × (run_checks ltb to_string 10000 on_that_day targets 1000 hanging
        per_check_timeout
      ≡ after ms panel)
    × (ms ≤ per_check_timeout)
    × (map (λ (r : Row). r.check) panel ≡ all_checks)
run_checks_in_time_example =
    run_checks_in_time ltb to_string 10000 on_that_day targets 1000 hanging per_check_timeout

abbrev panel : List Row
panel = settled_rows ltb to_string 10000 on_that_day targets 1000 probe per_check_timeout

run_checks-pass_example :
    AllPass panel ↔ IsReady ltb to_string 10000 on_that_day targets 1000 probe per_check_timeout
unfolding run_checks read_warm
run_checks-pass_example =
    run_checks-pass ltb to_string 10000 on_that_day targets 1000 probe per_check_timeout 3000 panel
      refl

-- Its rows all pass.
panel-AllPass : AllPass panel
unfolding evaluate_warm_throughput judge_tables judge_table evaluate_dynamodb_limits
    evaluate_api_gateway_throttle evaluate_reserved_concurrency evaluate_open_schedule at_epoch
    strip_close evaluate_controller_schedule evaluate_gate_ruleset evaluate_status_caching
    evaluate_gate_association worst read_warm
panel-AllPass = (refl, (refl, (refl, (refl, (refl, (refl, (refl, (refl, (refl, tt)))))))))
