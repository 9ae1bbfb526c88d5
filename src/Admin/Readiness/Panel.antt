-- ===== src/Admin/Readiness/Panel.antt =====
-- `run_checks` of crates/admin/src/readiness.rs. A read is what it answers and after how many
-- milliseconds, or that it never does; reads that are joined run side by side.
use Prim.Native.String.{String}
use virtual_waiting_room.Prelude.{
  ℕ, ◌/◌, Bool, Option, none, some, List, [], ◌∷◌, leb, if◌then◌else◌, max,
}
use virtual_waiting_room.Prelude.Result.{Result, ok, err, ◌>>=◌}
use virtual_waiting_room.Prelude.Int.{ℤ}
use virtual_waiting_room.Prelude.Chars.{Text}
use virtual_waiting_room.Admin.{GateConfig, ETag, EdgeStoreError}
use virtual_waiting_room.Admin.Readiness.{
  CheckId, warm_throughput, dynamodb_limits, api_gateway_throttle, assign_position_concurrency,
  open_schedule, controller_schedule, gate_ruleset, status_caching, gate_association, not_evaluable,
  Table, counters, pre_queue, positions, tokens, WarmTargets, WarmThroughput, DynamoDbLimits,
  ApiGatewayThrottle, ScheduleKind, open_kind, controller_kind, ScheduleFacts, EdgeFacts,
  ProbeError, failed, timed_out, of_table, not_published, could_not_evaluate, Row,
}
use virtual_waiting_room.Admin.Readiness.Judge.{
  Verdict, evaluate_warm_throughput, evaluate_dynamodb_limits, evaluate_api_gateway_throttle,
  evaluate_reserved_concurrency, evaluate_open_schedule, evaluate_controller_schedule,
  evaluate_gate_ruleset, evaluate_status_caching, evaluate_gate_association,
}

pub data Timed (A : Type 0) : Type 0 where
  after : ℕ → A → Timed A
  never : Timed A

abbrev pub Probed : Type 0 → Type 0
Probed A = Timed (Result A ProbeError)

-- `tokio::join!`.
abbrev pub both : {A B : Type 0} → Timed A → Timed B → Timed (A × B)
both never r = never
both (after m a) never = never
both (after m a) (after n b) = after (max m n) (a, b)

abbrev pub map_timed : {A B : Type 0} → (A → B) → Timed A → Timed B
map_timed f never = never
map_timed f (after m a) = after m (f a)

-- `tokio::time::timeout`, which asks the read before the clock.
abbrev pub bounded : {A : Type 0} → ℕ → Probed A → Probed A
bounded limit never = after limit (err (timed_out (limit / 1000)))
bounded limit (after m r) =
    if leb m limit then after m r else after limit (err (timed_out (limit / 1000)))

-- The trait `ReadinessProbe`, and the edge store's `read_config`.
pub record ReadinessProbe (F : Type 0) : Type 0 where
  pub warm : Table → Probed WarmThroughput
  pub limits : Probed DynamoDbLimits
  pub throttle : Probed (ApiGatewayThrottle F)
  pub reserved_concurrency : Probed (Option ℤ)
  pub schedule : ScheduleKind → Probed (Option ScheduleFacts)
  pub edge_facts : Probed (Option EdgeFacts)
  pub read_config : Timed (Result (GateConfig × ETag) EdgeStoreError)

abbrev pub labelled :
    Table → Result WarmThroughput ProbeError → Result (Table × WarmThroughput) ProbeError
labelled table (ok warm) = ok (table, warm)
labelled table (err e) = err (of_table table e)

abbrev pub Warm : Type 0
Warm = Result WarmThroughput ProbeError

abbrev pub applied_of :
    Warm × Warm × Warm × Warm → Result (List (Table × WarmThroughput)) ProbeError
applied_of (c, p, s, t) = do
  c' ← labelled counters c
  p' ← labelled pre_queue p
  s' ← labelled positions s
  t' ← labelled tokens t
  ok (c' ∷ p' ∷ s' ∷ t' ∷ [])

abbrev pub four : (Table → Probed WarmThroughput) → Timed (Warm × Warm × Warm × Warm)
four warm =
    map_timed (λ (q : Warm × (Warm × (Warm × Warm))). (q.0, q.1.0, q.1.1.0, q.1.1.1))
      (both (warm counters) (both (warm pre_queue) (both (warm positions) (warm tokens))))

unfoldable pub read_warm : (Table → Probed WarmThroughput) → Probed (List (Table × WarmThroughput))
read_warm warm = map_timed applied_of (four warm)

abbrev pub config_of : Result (GateConfig × ETag) EdgeStoreError → Result GateConfig ProbeError
config_of (ok (cfg, etag)) = ok cfg
config_of (err e) = err (failed e.text)

abbrev pub row : {A : Type 0} → CheckId → (A → Verdict) → Result A ProbeError → Row
row check judge (ok a) =
    let (status, detail) = judge a in record { check = check; status = status; detail = detail }
row check judge (err e) = record {
  check = check;
  status = not_evaluable;
  detail = could_not_evaluate e ∷ [];
}

abbrev pub edge_rows : Result (Option EdgeFacts) ProbeError → List Row
edge_rows (ok (some facts)) =
    row status_caching evaluate_status_caching (ok facts)
    ∷ row gate_association evaluate_gate_association (ok facts)
    ∷ []
edge_rows (ok none) =
    row status_caching evaluate_status_caching (err not_published)
    ∷ row gate_association evaluate_gate_association (err not_published)
    ∷ []
edge_rows (err e) =
    row status_caching evaluate_status_caching (err e)
    ∷ row gate_association evaluate_gate_association (err e)
    ∷ []

module _ {F : Type 0} (lt : F → F → Bool) (to_string : F → String) (default_api_gateway_rate : F)
    (civil_epoch : Text → Text → Option ℤ) (targets : WarmTargets) (now : ℕ) where
  -- The rows, of what the eight reads answered.
  abbrev pub rows :
      Result (List (Table × WarmThroughput)) ProbeError
      → Result DynamoDbLimits ProbeError
      → Result (ApiGatewayThrottle F) ProbeError
      → Result (Option ℤ) ProbeError
      → Result (Option ScheduleFacts) ProbeError
      → Result (Option ScheduleFacts) ProbeError
      → Result GateConfig ProbeError
      → Result (Option EdgeFacts) ProbeError
      → List Row
  rows warm limits api concurrency opens controls gate edge =
      row warm_throughput (evaluate_warm_throughput targets) warm
      ∷ row dynamodb_limits (λ l. evaluate_dynamodb_limits l targets) limits
      ∷ row api_gateway_throttle
          (evaluate_api_gateway_throttle lt to_string default_api_gateway_rate) api
      ∷ row assign_position_concurrency evaluate_reserved_concurrency concurrency
      ∷ row open_schedule (λ s. evaluate_open_schedule civil_epoch s now) opens
      ∷ row controller_schedule evaluate_controller_schedule controls
      ∷ row gate_ruleset (λ cfg. evaluate_gate_ruleset cfg now) gate
      ∷ edge_rows edge

  unfoldable pub run_checks : ReadinessProbe F → ℕ → Timed (List Row)
  run_checks probe limit =
      map_timed
        (λ a.
          rows a.0 a.1.0 a.1.1.0 a.1.1.1.0 a.1.1.1.1.0 a.1.1.1.1.1.0 a.1.1.1.1.1.1.0
            a.1.1.1.1.1.1.1)
        (both (bounded limit (read_warm probe.warm)) (
          both (bounded limit probe.limits) (
            both (bounded limit probe.throttle) (
              both (bounded limit probe.reserved_concurrency) (
                both (bounded limit (probe.schedule open_kind)) (
                  both (bounded limit (probe.schedule controller_kind)) (
                    both (bounded limit (map_timed config_of probe.read_config))
                      (bounded limit probe.edge_facts))))))))
