-- ===== src/Admin/Readiness/Green.antt =====
-- A deployment that is ready, and the whole panel of crates/admin/src/readiness.rs.
use Prim.Native.String.{String}
use virtual_waiting_room.Prelude.{
  ℕ, ◌≤◌, ◌≡◌, ◌↔◌, Bool, true, false, ◌&&◌, Option, some, List, [], length,
}
use virtual_waiting_room.Prelude.Int.{ℤ, pos, less, is_zero}
use virtual_waiting_room.Prelude.Chars.{Text}
use virtual_waiting_room.Admin.{GateConfig}
use virtual_waiting_room.Admin.Readiness.{
  pass, warm_throughput, dynamodb_limits, api_gateway_throttle, assign_position_concurrency,
  open_schedule, controller_schedule, gate_ruleset, Table, WarmTargets, WarmThroughput,
  DynamoDbLimits, ApiGatewayThrottle, open_kind, controller_kind, ScheduleFacts, EdgeFacts, Row,
}
use virtual_waiting_room.Admin.Readiness.Judge.{
  evaluate_warm_throughput, evaluate_dynamodb_limits, evaluate_api_gateway_throttle,
  evaluate_reserved_concurrency, evaluate_open_schedule, evaluate_controller_schedule,
  evaluate_gate_ruleset,
}
use virtual_waiting_room.Admin.Readiness.Ready.{
  IsWarm, evaluate_warm_throughput-pass, IsRaised, evaluate_dynamodb_limits-pass,
  evaluate_reserved_concurrency-pass,
}
use virtual_waiting_room.Admin.Readiness.Pass.{
  IsAboveDefault, evaluate_api_gateway_throttle-pass, WillOpen, evaluate_open_schedule-pass,
  evaluate_controller_schedule-pass, evaluate_gate_ruleset-pass, IsCollapsing, Answers, row-pass,
}
use virtual_waiting_room.Admin.Readiness.Panel.{
  after, map_timed, ReadinessProbe, read_warm, config_of, run_checks, row,
}
use virtual_waiting_room.Admin.Readiness.Settled.{settled, settled_rows, run_checks-settled}
use virtual_waiting_room.Admin.Readiness.Parts.{AllPass, warm_of, all_warm, edge_rows-pass}
use virtual_waiting_room.Admin.Readiness.Four.{row_passes, some_row_passes}

abbrev pub IsGuarding : ℕ → GateConfig → Type 0
IsGuarding now cfg = (1 ≤ length cfg.rules) × (cfg.fail_open_until ≤ now)

module _ {F : Type 0} (lt : F → F → Bool) (to_string : F → String) (default : F)
    (civil_epoch : Text → Text → Option ℤ) (targets : WarmTargets) (now : ℕ)
    (probe : ReadinessProbe F) (limit : ℕ) where
  -- Each read answers within the limit, and each measured value is what its requirement asks for.
  pub record IsReady : Type 0 where
    pub targeted : is_zero targets.write_units && is_zero targets.read_units ≡ false
    pub warm :
        (table : Table)
        → (w : WarmThroughput) × Answers limit (probe.warm table) w × IsWarm targets table w
    pub raised : (l : DynamoDbLimits) × Answers limit probe.limits l × IsRaised targets l
    pub throttle :
        (a : ApiGatewayThrottle F) × Answers limit probe.throttle a
        × IsAboveDefault lt to_string default a
    pub reserved :
        (n : ℤ) × Answers limit probe.reserved_concurrency (some n) × (less (pos 0) n ≡ true)
    pub opens :
        (o : Option ScheduleFacts) × Answers limit (probe.schedule open_kind) o
        × WillOpen civil_epoch now o
    pub controlled :
        (s : ScheduleFacts) × Answers limit (probe.schedule controller_kind) (some s)
        × (s.enabled ≡ true)
    pub guarded :
        (cfg : GateConfig) × Answers limit (map_timed config_of probe.read_config) cfg
        × IsGuarding now cfg
    pub edge :
        (facts : EdgeFacts) × Answers limit probe.edge_facts (some facts)
        × IsCollapsing facts.status_caching
        × (facts.gate_on_default ≡ true)
        × (facts.gate_elsewhere ≡ [])

  limits_row :
      ((row dynamodb_limits
          (λ l. evaluate_dynamodb_limits l targets)
          (settled limit probe.limits)).status
        ≡ pass)
      ↔ ((l : DynamoDbLimits) × Answers limit probe.limits l × IsRaised targets l)
  limits_row =
      row_passes limit dynamodb_limits (λ l. evaluate_dynamodb_limits l targets) probe.limits
        (IsRaised targets) (λ l. evaluate_dynamodb_limits-pass l targets)

  throttle_row :
      ((row api_gateway_throttle
          (evaluate_api_gateway_throttle lt to_string default)
          (settled limit probe.throttle)).status
        ≡ pass)
      ↔ ((a : ApiGatewayThrottle F) × Answers limit probe.throttle a
          × IsAboveDefault lt to_string default a)
  throttle_row =
      row_passes limit api_gateway_throttle (evaluate_api_gateway_throttle lt to_string default)
        probe.throttle (IsAboveDefault lt to_string default)
        (evaluate_api_gateway_throttle-pass lt to_string default)

  open_row :
      ((row open_schedule
          (λ s. evaluate_open_schedule civil_epoch s now)
          (settled limit (probe.schedule open_kind))).status
        ≡ pass)
      ↔ ((o : Option ScheduleFacts) × Answers limit (probe.schedule open_kind) o
          × WillOpen civil_epoch now o)
  open_row =
      row_passes limit open_schedule (λ s. evaluate_open_schedule civil_epoch s now)
        (probe.schedule open_kind) (WillOpen civil_epoch now)
        (λ o. evaluate_open_schedule-pass civil_epoch o now)

  gate_row :
      ((row gate_ruleset
          (λ cfg. evaluate_gate_ruleset cfg now)
          (settled limit (map_timed config_of probe.read_config))).status
        ≡ pass)
      ↔ ((cfg : GateConfig) × Answers limit (map_timed config_of probe.read_config) cfg
          × IsGuarding now cfg)
  gate_row =
      row_passes limit gate_ruleset (λ cfg. evaluate_gate_ruleset cfg now)
        (map_timed config_of probe.read_config) (IsGuarding now)
        (λ cfg. evaluate_gate_ruleset-pass cfg now)

  reserved_row :
      ((row assign_position_concurrency evaluate_reserved_concurrency
          (settled limit probe.reserved_concurrency)).status
        ≡ pass)
      ↔ ((n : ℤ) × Answers limit probe.reserved_concurrency (some n) × (less (pos 0) n ≡ true))
  reserved_row =
      some_row_passes limit assign_position_concurrency evaluate_reserved_concurrency
        probe.reserved_concurrency (λ n. less (pos 0) n ≡ true) evaluate_reserved_concurrency-pass

  controller_row :
      ((row controller_schedule evaluate_controller_schedule
          (settled limit (probe.schedule controller_kind))).status
        ≡ pass)
      ↔ ((s : ScheduleFacts) × Answers limit (probe.schedule controller_kind) (some s)
          × (s.enabled ≡ true))
  controller_row =
      some_row_passes limit controller_schedule evaluate_controller_schedule
        (probe.schedule controller_kind) (λ s. s.enabled ≡ true) evaluate_controller_schedule-pass

  settled_rows-pass :
      AllPass (settled_rows lt to_string default civil_epoch targets now probe limit) ↔ IsReady
  settled_rows-pass =
      let tables =
        row-pass warm_throughput (evaluate_warm_throughput targets) limit (read_warm probe.warm) in
      (
        λ all.
            let (applied, answered, w) = tables.0 (all.0) in
            let (targeted, whole) = (evaluate_warm_throughput-pass targets applied).0 w in
            record {
              targeted = targeted;
              warm = warm_of targets probe.warm limit applied answered whole;
              raised = limits_row.0 (all.1.0);
              throttle = throttle_row.0 (all.1.1.0);
              reserved = reserved_row.0 (all.1.1.1.0);
              opens = open_row.0 (all.1.1.1.1.0);
              controlled = controller_row.0 (all.1.1.1.1.1.0);
              guarded = gate_row.0 (all.1.1.1.1.1.1.0);
              edge = (edge_rows-pass limit probe.edge_facts).0 (all.1.1.1.1.1.1.1);
            },
        λ h.
            let (applied, answered, whole) = all_warm targets probe.warm limit (h.warm) in
            let w = (evaluate_warm_throughput-pass targets applied).1 (h.targeted, whole) in
            (
              tables.1 (applied, answered, w),
              (
                limits_row.1 (h.raised),
                (
                  throttle_row.1 (h.throttle),
                  (
                    reserved_row.1 (h.reserved),
                    (
                      open_row.1 (h.opens),
                      (
                        controller_row.1 (h.controlled),
                        (
                          gate_row.1 (h.guarded),
                          (edge_rows-pass limit probe.edge_facts).1 (h.edge),
                        ),
                      ),
                    ),
                  ),
                ),
              ),
            ),
      )

  -- Every row of the panel that the checks end with says "pass" exactly when the deployment is
  -- ready: each read answered within the limit, the tables are warm to a target that is set and the
  -- registrations' table to its rate, the quotas are raised, the join consumer has concurrency of
  -- its own, the open is scheduled ahead, the controller runs, the gate has rules and no open
  -- window, polls collapse, and the gate is on the default behaviour alone.
  pub run_checks-pass :
      (ms : ℕ) (panel : List Row)
      → run_checks lt to_string default civil_epoch targets now probe limit ≡ after ms panel
      → AllPass panel ↔ IsReady
  run_checks-pass ms panel e =
      let (m, settled_e, le) =
        run_checks-settled lt to_string default civil_epoch targets now probe limit in
      let same : panel ≡ settled_rows lt to_string default civil_epoch targets now probe limit =
        cc in
      rw same settled_rows-pass
