-- ===== src/Admin/Readiness/Ready.antt =====
-- What the panel of crates/admin/src/readiness.rs stands for: when each of its judgements is a pass.
use virtual_waiting_room.Prelude.{
  ◌≡◌, ◌≢◌, ◌↔◌, inl, inr, refl, Bool, true, false, ◌&&◌, Option, none, some, List, [], ◌∷◌, ◌++◌,
  arith, Bool-cases,
}
use virtual_waiting_room.Prelude.Int.{ℤ, pos, less, is_zero}
use virtual_waiting_room.Assembly.{unwrap_or}
use virtual_waiting_room.Admin.Readiness.{
  default_table_throughput_limit, registration_target_per_second, Status, pass, warn, fail,
  not_evaluable, worst, Table, WarmTargets, WarmThroughput, DynamoDbLimits, Note, measured,
  still_warming, write_below, read_below, under_registration_rate,
}
use virtual_waiting_room.Admin.Readiness.Judge.{
  Judging, note_if, is_pre_queue, judge_table, judge_tables, evaluate_warm_throughput,
  evaluate_dynamodb_limits, judge_limit, evaluate_reserved_concurrency,
}

-- A target of 0 or less asks for nothing.
abbrev pub Reaches : ℤ → ℤ → Type 0
Reaches target have = less (pos 0) target ≡ true → less have target ≡ false

pub record IsWarm (targets : WarmTargets) (table : Table) (warm : WarmThroughput) : Type 0 where
  pub settled : warm.warming ≡ false
  pub writes : Reaches targets.write_units (unwrap_or warm.write_units (pos 0))
  pub reads : Reaches targets.read_units (unwrap_or warm.read_units (pos 0))
  pub registers :
      is_pre_queue table ≡ true
      → less (unwrap_or warm.write_units (pos 0)) registration_target_per_second ≡ false

abbrev pub AllWarm : WarmTargets → List (Table × WarmThroughput) → Type 0
AllWarm targets [] = Unit {0}
AllWarm targets ((table, warm) ∷ applied) = IsWarm targets table warm × AllWarm targets applied

worst-pass : (a b : Status) → worst a b ≡ pass → (a ≡ pass) × (b ≡ pass)
unfolding worst
worst-pass pass pass e = (refl, refl)
worst-pass pass warn e = cc
worst-pass pass fail e = cc
worst-pass pass not_evaluable e = cc
worst-pass warn b e = absurd (ground arith)
worst-pass fail b e = absurd (ground arith)
worst-pass not_evaluable b e = absurd (ground arith)

note_if-pass :
    (b : Bool) (s : Status) (n : Note) (j : Judging)
    → s ≢ pass
    → ((note_if b s n j).0 ≡ pass) ↔ ((j.0 ≡ pass) × (b ≡ false))
note_if-pass false s n j ne = (λ e. (e, refl), λ h. h.0)
note_if-pass true s n j ne = (λ e. absurd (ne (worst-pass j.0 s e).1), λ h. absurd (cc (h.1)))

implies : (a b : Bool) → (a && b ≡ false) ↔ (a ≡ true → b ≡ false)
implies true b = (λ e h. e, λ h. h refl)
implies false b = (λ e h. cc, λ h. refl)

judge_table-pass :
    (targets : WarmTargets) (table : Table) (warm : WarmThroughput) (j : Judging)
    → ((judge_table targets table warm j).0 ≡ pass) ↔ ((j.0 ≡ pass) × IsWarm targets table warm)
unfolding judge_table
judge_table-pass targets table warm (status, seen, notes) =
    let write = unwrap_or warm.write_units (pos 0) in
    let read = unwrap_or warm.read_units (pos 0) in
    let low_write = less (pos 0) targets.write_units && less write targets.write_units in
    let low_read = less (pos 0) targets.read_units && less read targets.read_units in
    let low_rate = is_pre_queue table && less write registration_target_per_second in
    let j1 : Judging = (status, seen ++ measured table write read ∷ [], notes) in
    let j2 = note_if warm.warming warn (still_warming table) j1 in
    let j3 = note_if low_write fail (write_below table write targets.write_units) j2 in
    let j4 = note_if low_read fail (read_below table read targets.read_units) j3 in
    let n1 = note_if-pass warm.warming warn (still_warming table) j1 (λ e. cc) in
    let n2 =
      note_if-pass low_write fail (write_below table write targets.write_units) j2 (λ e. cc) in
    let n3 = note_if-pass low_read fail (read_below table read targets.read_units) j3 (λ e. cc) in
    let n4 = note_if-pass low_rate warn (under_registration_rate write) j4 (λ e. cc) in
    (
      λ e.
          let (e3, rate) = n4.0 e in
          let (e2, reads) = n3.0 e3 in
          let (e1, writes) = n2.0 e2 in
          let (e0, warming) = n1.0 e1 in
          (
            e0,
            record {
              settled = warming;
              writes = (implies _ _).0 writes;
              reads = (implies _ _).0 reads;
              registers = (implies _ _).0 rate;
            },
          ),
      λ h. n4.1 (
        n3.1 (
          n2.1 (n1.1 (h.0, h.1.settled), (implies _ _).1 (h.1.writes)),
          (implies _ _).1 (h.1.reads),
        ),
        (implies _ _).1 (h.1.registers),
      ),
    )

judge_tables-pass :
    (targets : WarmTargets) (applied : List (Table × WarmThroughput)) (j : Judging)
    → ((judge_tables targets applied j).0 ≡ pass) ↔ ((j.0 ≡ pass) × AllWarm targets applied)
unfolding judge_tables
judge_tables-pass targets [] j = (λ e. (e, tt), λ h. h.0)
judge_tables-pass targets ((table, warm) ∷ applied) j =
    let one = judge_table-pass targets table warm j in
    let rest = judge_tables-pass targets applied (judge_table targets table warm j) in
    (
      λ e. let (before, all) = rest.0 e in let (start, this) = one.0 before in (start, (this, all)),
      λ h. rest.1 (one.1 (h.0, h.1.0), h.1.1),
    )

-- The tables are warm, and some target says what that is.
pub evaluate_warm_throughput-pass :
    (targets : WarmTargets) (applied : List (Table × WarmThroughput))
    → ((evaluate_warm_throughput targets applied).0 ≡ pass) ↔ (
        (is_zero targets.write_units && is_zero targets.read_units ≡ false)
        × AllWarm targets applied)
unfolding evaluate_warm_throughput
evaluate_warm_throughput-pass targets applied =
    let all = judge_tables-pass targets applied (pass, [], []) in
    elim (Bool-cases (is_zero targets.write_units && is_zero targets.read_units)) [
      | inl untargeted ↦
          (λ e. absurd (cc ((worst-pass _ warn (rw untargeted at e)).1)), λ h. absurd (cc (h.0)))
      | inr targeted ↦
          (λ e. (targeted, (all.0 (rw targeted at e)).1), λ h. rw targeted (all.1 (refl, h.1)))
    ]

-- An increase is in force, and reaches the configured throughput.
pub record IsRaised (targets : WarmTargets) (limits : DynamoDbLimits) : Type 0 where
  pub limit : ℤ
  pub reported : limits.table_max_write ≡ some limit
  pub above_default : less default_table_throughput_limit limit ≡ true
  pub reaches : Reaches targets.write_units limit

pub evaluate_dynamodb_limits-pass :
    (limits : DynamoDbLimits) (targets : WarmTargets)
    → ((evaluate_dynamodb_limits limits targets).0 ≡ pass) ↔ IsRaised targets limits
unfolding evaluate_dynamodb_limits
evaluate_dynamodb_limits-pass limits targets =
    (λ e. passed limits.table_max_write refl e, λ h. raised h)
  where
    passed :
        (o : Option ℤ)
        → limits.table_max_write ≡ o
        → (judge_limit limits targets o).0 ≡ pass
        → IsRaised targets limits
    passed none q e = cc
    passed (some limit) q e = record {
      limit = limit;
      reported = q;
      above_default = ground arith;
      reaches = (implies _ _).0 (ground arith);
    }

    raised : IsRaised targets limits → (judge_limit limits targets limits.table_max_write).0 ≡ pass
    raised h =
        let above = h.above_default in
        let enough = (implies _ _).1 (h.reaches) in rw (h.reported, enough, above) refl

pub evaluate_reserved_concurrency-pass :
    (o : Option ℤ)
    → ((evaluate_reserved_concurrency o).0 ≡ pass)
      ↔ ((n : ℤ) × (o ≡ some n) × (less (pos 0) n ≡ true))
unfolding evaluate_reserved_concurrency
evaluate_reserved_concurrency-pass none = (λ e. cc, λ h. absurd (cc (h.1)))
evaluate_reserved_concurrency-pass (some n) =
    (λ e. (n, refl, ground arith), λ h. let (m, q, more) = h in ground arith)
