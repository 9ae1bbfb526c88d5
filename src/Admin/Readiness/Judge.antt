-- ===== src/Admin/Readiness/Judge.antt =====
-- The judgements of crates/admin/src/readiness.rs: a measured value in, a status and notes out.
-- `F` is `f64`, with its order and its text; `civil_epoch` reads a date and time in a named timezone as the epoch
-- second of its compatible instant, which is the calendar package.
use Prim.Native.String.{String}
use virtual_waiting_room.Prelude.{
  ℕ, zero, suc, ◌-◌, ◌&&◌, ◌==◌, Bool, true, false, not, Option, none, some, List, [], ◌∷◌, ◌++◌,
  ltb, if◌then◌else◌, length, min,
}
use virtual_waiting_room.Prelude.Int.{ℤ, pos, less, is_zero}
use virtual_waiting_room.Prelude.Chars.{Text}
use virtual_waiting_room.Assembly.{unwrap_or}
use virtual_waiting_room.Admin.{GateConfig}
use virtual_waiting_room.Admin.Readiness.{
  default_table_throughput_limit, registration_target_per_second, Status, pass, warn, fail,
  not_evaluable, worst, Table, counters, pre_queue, positions, tokens, WarmTargets, WarmThroughput,
  DynamoDbLimits, ApiGatewayThrottle, open_kind, controller_kind, ScheduleFacts, CookieKey,
  no_cookies, included, CachingFacts, EdgeFacts, Note, measured, still_warming, write_below,
  read_below, under_registration_rate, no_prewarm, configured, limits_are, no_write_limit,
  limit_below_configured, at_default, below_needed, no_rate, throttle_is, unreserved,
  throttled_entirely, reserved, no_schedule, controller_disabled, controller_enabled, disabled,
  enabled_at, in_the_past, not_one_time, no_rules, rules_configured, fail_open_active, no_behaviour,
  caching_is, every_poll_reaches_origin, not_on_default, default_only, also_on,
}

abbrev pub Verdict : Type 0
Verdict = Status × List Note

-- The status so far, what was measured, and the notes.
abbrev pub Judging : Type 0
Judging = Status × List Note × List Note

-- `status = status.worst(s); notes.push(note)` under a test.
abbrev pub note_if : Bool → Status → Note → Judging → Judging
note_if false s note j = j
note_if true s note (status, seen, notes) = (worst status s, seen, notes ++ note ∷ [])

abbrev pub is_pre_queue : Table → Bool
is_pre_queue pre_queue = true
is_pre_queue counters = false
is_pre_queue positions = false
is_pre_queue tokens = false

-- One round of the loop over the tables.
unfoldable pub judge_table : WarmTargets → Table → WarmThroughput → Judging → Judging
judge_table targets table warm (status, seen, notes) =
    let write = unwrap_or warm.write_units (pos 0) in
    let read = unwrap_or warm.read_units (pos 0) in
    note_if (is_pre_queue table && less write registration_target_per_second) warn
      (under_registration_rate write)
      (note_if (less (pos 0) targets.read_units && less read targets.read_units) fail
        (read_below table read targets.read_units)
        (note_if (less (pos 0) targets.write_units && less write targets.write_units) fail
          (write_below table write targets.write_units)
          (note_if warm.warming warn (still_warming table)
            (status, seen ++ measured table write read ∷ [], notes))))

unfoldable pub judge_tables : WarmTargets → List (Table × WarmThroughput) → Judging → Judging
judge_tables targets [] j = j
judge_tables targets ((table, warm) ∷ applied) j =
    judge_tables targets applied (judge_table targets table warm j)

abbrev pub judge_targets : WarmTargets → Judging → Verdict
judge_targets targets (status, seen, notes) =
    if is_zero targets.write_units && is_zero targets.read_units
    then (worst status warn, seen ++ notes ++ no_prewarm ∷ [])
    else (status, seen ++ notes ++ configured targets.write_units targets.read_units ∷ [])

unfoldable pub evaluate_warm_throughput : WarmTargets → List (Table × WarmThroughput) → Verdict
evaluate_warm_throughput targets applied =
    judge_targets targets (judge_tables targets applied (pass, [], []))

abbrev pub judge_limit : DynamoDbLimits → WarmTargets → Option ℤ → Verdict
judge_limit limits targets none = (not_evaluable, no_write_limit ∷ limits_are limits ∷ [])
judge_limit limits targets (some table_write) =
    if less (pos 0) targets.write_units && less table_write targets.write_units
    then (fail, limits_are limits ∷ limit_below_configured targets.write_units ∷ [])
    else if not (less default_table_throughput_limit table_write)
    then (warn, limits_are limits ∷ at_default ∷ [])
    else (pass, limits_are limits ∷ [])

unfoldable pub evaluate_dynamodb_limits : DynamoDbLimits → WarmTargets → Verdict
evaluate_dynamodb_limits limits targets = judge_limit limits targets limits.table_max_write

module _ {F : Type 0} (lt : F → F → Bool) (to_string : F → String)
    (default_api_gateway_rate : F) where
  abbrev pub judge_rate : Option ℤ → Option F → Verdict
  judge_rate burst none = (not_evaluable, no_rate ∷ [])
  judge_rate burst (some rate) =
      if lt rate default_api_gateway_rate
      then (fail, throttle_is (to_string rate) burst ∷ below_needed ∷ [])
      else if lt default_api_gateway_rate rate
      then (pass, throttle_is (to_string rate) burst ∷ [])
      else (warn, throttle_is (to_string rate) burst ∷ at_default ∷ [])

  unfoldable pub evaluate_api_gateway_throttle : ApiGatewayThrottle F → Verdict
  evaluate_api_gateway_throttle throttle = judge_rate throttle.burst_limit throttle.rate_limit

unfoldable pub evaluate_reserved_concurrency : Option ℤ → Verdict
evaluate_reserved_concurrency none = (fail, unreserved ∷ [])
evaluate_reserved_concurrency (some n) =
    if not (less (pos 0) n) then (fail, throttled_entirely n ∷ []) else (pass, reserved n ∷ [])

-- `strip_prefix("at(")` and `strip_suffix(')')`.
abbrev pub strip_at : Text → Option Text
strip_at (a ∷ t ∷ o ∷ rest) = if a == b'a' && (t == b't' && o == b'(') then some rest else none
strip_at (a ∷ t ∷ []) = none
strip_at (a ∷ []) = none
strip_at [] = none

unfoldable pub strip_close : Text → Option Text
strip_close [] = none
strip_close (c ∷ []) = if c == b')' then some [] else none
strip_close (c ∷ d ∷ cs) = elim (strip_close (d ∷ cs)) [
  | none ↦ none
  | some inner ↦ some (c ∷ inner)
]

-- `i64::MAX`.
abbrev pub i64_max : ℕ
i64_max = 9223372036854775807

module _ (civil_epoch : Text → Text → Option ℤ) where
  abbrev pub inner_epoch : Text → Option Text → Option ℤ
  inner_epoch timezone none = none
  inner_epoch timezone (some inner) = civil_epoch inner timezone

  abbrev pub after_at : Text → Option Text → Option ℤ
  after_at timezone none = none
  after_at timezone (some rest) = inner_epoch timezone (strip_close rest)

  unfoldable pub at_epoch : Text → Text → Option ℤ
  at_epoch expression timezone = after_at timezone (strip_at expression)

  abbrev pub judge_at : ScheduleFacts → ℕ → Option ℤ → Verdict
  judge_at s now none = (warn, not_one_time s.expression s.timezone ∷ [])
  judge_at s now (some at) =
      if less (pos (min now i64_max)) at
      then (pass, enabled_at s.expression s.timezone ∷ [])
      else (warn, in_the_past s.expression s.timezone ∷ [])

  unfoldable pub evaluate_open_schedule : Option ScheduleFacts → ℕ → Verdict
  evaluate_open_schedule none now = (fail, no_schedule open_kind ∷ [])
  evaluate_open_schedule (some s) now =
      if not s.enabled
      then (warn, disabled s.expression s.timezone ∷ [])
      else judge_at s now (at_epoch s.expression s.timezone)

unfoldable pub evaluate_controller_schedule : Option ScheduleFacts → Verdict
evaluate_controller_schedule none = (fail, no_schedule controller_kind ∷ [])
evaluate_controller_schedule (some s) =
    if not s.enabled
    then (fail, controller_disabled s.expression ∷ [])
    else (pass, controller_enabled s.expression ∷ [])

abbrev pub judge_rules : ℕ → Verdict
judge_rules zero = (warn, no_rules ∷ [])
judge_rules (suc n) = (pass, rules_configured (suc n) ∷ [])

unfoldable pub evaluate_gate_ruleset : GateConfig → ℕ → Verdict
evaluate_gate_ruleset cfg now =
    let (status, detail) = judge_rules (length cfg.rules) in
    if ltb now cfg.fail_open_until
    then (
      worst status warn,
      detail ++ fail_open_active cfg.fail_open_until (cfg.fail_open_until - now) ∷ [],
    )
    else (status, detail)

abbrev pub is_uncookied : CookieKey → Bool
is_uncookied no_cookies = true
is_uncookied (included how) = false

abbrev pub judge_caching : String → Option CachingFacts → Verdict
judge_caching path none = (fail, no_behaviour path ∷ [])
judge_caching path (some caching) =
    if less (pos 0) caching.min_ttl && is_uncookied caching.cookies
    then (pass, caching_is path caching ∷ [])
    else (fail, caching_is path caching ∷ every_poll_reaches_origin ∷ [])

unfoldable pub evaluate_status_caching : EdgeFacts → Verdict
evaluate_status_caching facts = judge_caching facts.status_path facts.status_caching

abbrev pub elsewhere : List String → List Note
elsewhere [] = []
elsewhere (path ∷ paths) = also_on (path ∷ paths) ∷ []

abbrev pub default_problems : Bool → List Note
default_problems true = []
default_problems false = not_on_default ∷ []

abbrev pub judge_problems : List Note → Verdict
judge_problems [] = (pass, default_only ∷ [])
judge_problems (problem ∷ problems) = (fail, problem ∷ problems)

unfoldable pub evaluate_gate_association : EdgeFacts → Verdict
evaluate_gate_association facts =
    judge_problems (default_problems facts.gate_on_default ++ elsewhere facts.gate_elsewhere)
