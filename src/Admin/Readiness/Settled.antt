-- ===== src/Admin/Readiness/Settled.antt =====
-- The panel of crates/admin/src/readiness.rs comes in time, whatever its reads do.
use Prim.Native.String.{String}
use virtual_waiting_room.Prelude.{
  ℕ, ◌/◌, ◌≤◌, ◌≡◌, inl, inr, refl, Bool, Option, none, some, List, [], ◌∷◌, map, leb, arith, max,
  Bool-cases, if◌then◌else◌,
}
use virtual_waiting_room.Prelude.Result.{Result, ok, err}
use virtual_waiting_room.Prelude.Int.{ℤ}
use virtual_waiting_room.Prelude.Chars.{Text}
use virtual_waiting_room.Admin.Readiness.{
  CheckId, all_checks, warm_throughput, dynamodb_limits, api_gateway_throttle,
  assign_position_concurrency, open_schedule, controller_schedule, gate_ruleset, status_caching,
  gate_association, WarmTargets, open_kind, controller_kind, EdgeFacts, ProbeError, timed_out, Row,
}
use virtual_waiting_room.Admin.Readiness.Panel.{
  after, never, Probed, map_timed, bounded, ReadinessProbe, read_warm, config_of, row, edge_rows,
  rows, run_checks,
}
use virtual_waiting_room.Admin.Readiness.Judge.{Verdict}

-- What a bounded read has answered, and when.
abbrev pub settled : {A : Type 0} → ℕ → Probed A → Result A ProbeError
settled limit never = err (timed_out (limit / 1000))
settled limit (after m r) = if leb m limit then r else err (timed_out (limit / 1000))

abbrev pub settled_at : {A : Type 0} → ℕ → Probed A → ℕ
settled_at limit never = limit
settled_at limit (after m r) = if leb m limit then m else limit

pub bounded_lem :
    {A : Type 0} (limit : ℕ) (r : Probed A)
    → bounded limit r ≡ after (settled_at limit r) (settled limit r)
bounded_lem limit never = refl
bounded_lem limit (after m r) = elim (Bool-cases (leb m limit)) [
  | inl soon ↦ rw soon refl
  | inr late ↦ rw late refl
]

pub settled_at-le : {A : Type 0} (limit : ℕ) (r : Probed A) → settled_at limit r ≤ limit
settled_at-le limit never = omega arith
settled_at-le limit (after m r) = ground arith

row-check :
    {A : Type 0} (check : CheckId) (judge : A → Verdict) (r : Result A ProbeError)
    → (row check judge r).check ≡ check
row-check check judge (ok a) = refl
row-check check judge (err e) = refl

edge_rows-check :
    (r : Result (Option EdgeFacts) ProbeError)
    → map (λ (x : Row). x.check) (edge_rows r) ≡ status_caching ∷ gate_association ∷ []
edge_rows-check (ok (some facts)) = refl
edge_rows-check (ok none) = refl
edge_rows-check (err e) = refl

module _ {F : Type 0} (lt : F → F → Bool) (to_string : F → String) (default_api_gateway_rate : F)
    (civil_epoch : Text → Text → Option ℤ) (targets : WarmTargets) (now : ℕ)
    (probe : ReadinessProbe F) (limit : ℕ) where
  abbrev pub settled_rows : List Row
  settled_rows =
      rows lt to_string default_api_gateway_rate civil_epoch targets now
        (settled limit (read_warm probe.warm)) (settled limit probe.limits)
        (settled limit probe.throttle) (settled limit probe.reserved_concurrency)
        (settled limit (probe.schedule open_kind)) (settled limit (probe.schedule controller_kind))
        (settled limit (map_timed config_of probe.read_config)) (settled limit probe.edge_facts)

  -- When the last of the eight has answered.
  abbrev last : ℕ
  last = max (settled_at limit (read_warm probe.warm)) (
      max (settled_at limit probe.limits) (
        max (settled_at limit probe.throttle) (
          max (settled_at limit probe.reserved_concurrency) (
            max (settled_at limit (probe.schedule open_kind)) (
              max (settled_at limit (probe.schedule controller_kind)) (
                max (settled_at limit (map_timed config_of probe.read_config))
                  (settled_at limit probe.edge_facts)))))))

  pub run_checks-settled :
      (ms : ℕ) × (run_checks lt to_string default_api_gateway_rate civil_epoch targets now probe
          limit
        ≡ after ms settled_rows)
      × (ms ≤ limit)
  unfolding run_checks
  run_checks-settled = (
    last,
    rw
        (
          bounded_lem limit (read_warm probe.warm),
          bounded_lem limit probe.limits,
          bounded_lem limit probe.throttle,
          bounded_lem limit probe.reserved_concurrency,
          bounded_lem limit (probe.schedule open_kind),
          bounded_lem limit (probe.schedule controller_kind),
          bounded_lem limit (map_timed config_of probe.read_config),
          bounded_lem limit probe.edge_facts,
        )
        refl,
    omega (
      arith,
      settled_at-le limit (read_warm probe.warm),
      settled_at-le limit probe.limits,
      settled_at-le limit probe.throttle,
      settled_at-le limit probe.reserved_concurrency,
      settled_at-le limit (probe.schedule open_kind),
      settled_at-le limit (probe.schedule controller_kind),
      settled_at-le limit (map_timed config_of probe.read_config),
      settled_at-le limit probe.edge_facts,
    ),
  )

  settled_rows-check : map (λ (r : Row). r.check) settled_rows ≡ all_checks
  settled_rows-check =
      rw
        (
          row-check warm_throughput _ (settled limit (read_warm probe.warm)),
          row-check dynamodb_limits _ (settled limit probe.limits),
          row-check api_gateway_throttle _ (settled limit probe.throttle),
          row-check assign_position_concurrency _ (settled limit probe.reserved_concurrency),
          row-check open_schedule _ (settled limit (probe.schedule open_kind)),
          row-check controller_schedule _ (settled limit (probe.schedule controller_kind)),
          row-check gate_ruleset _ (settled limit (map_timed config_of probe.read_config)),
          edge_rows-check (settled limit probe.edge_facts),
        )
        refl

  -- The checks come to an end within the limit that each read has, whatever the reads do, those that
  -- fail or never answer included, with one row for each check, in the order of the panel.
  pub run_checks_in_time :
      (ms : ℕ) × (panel : List Row) × (run_checks lt to_string default_api_gateway_rate civil_epoch
          targets now probe limit
        ≡ after ms panel)
      × (ms ≤ limit)
      × (map (λ (r : Row). r.check) panel ≡ all_checks)
  run_checks_in_time =
      let (ms, e, le) = run_checks-settled in (ms, settled_rows, e, le, settled_rows-check)
