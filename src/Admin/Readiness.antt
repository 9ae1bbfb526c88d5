-- ===== src/Admin/Readiness.antt =====
-- crates/admin/src/readiness.rs: the checks before an event. Of a row's text the notes are kept that
-- its `format!` calls print, in their order, each with the values that it prints.
pub mod Judge
pub mod Panel
pub mod Settled
pub mod Ready
pub mod Pass
pub mod Four
pub mod Parts
pub mod Green
use Prim.Native.String.{String}
use virtual_waiting_room.Prelude.{ℕ, Bool, true, false, Option, List, [], ◌∷◌, if◌then◌else◌, ltb}
use virtual_waiting_room.Prelude.Int.{ℤ, pos}
use virtual_waiting_room.Prelude.Chars.{Text}

-- `PER_CHECK_TIMEOUT`, in milliseconds.
abbrev pub per_check_timeout : ℕ
per_check_timeout = 3000

abbrev pub default_table_throughput_limit : ℤ
default_table_throughput_limit = pos 40000

abbrev pub registration_target_per_second : ℤ
registration_target_per_second = pos 10000

pub data CheckId : Type 0 where
  warm_throughput dynamodb_limits api_gateway_throttle assign_position_concurrency : CheckId
  open_schedule controller_schedule gate_ruleset status_caching gate_association : CheckId

-- `CheckId::ALL`.
abbrev pub all_checks : List CheckId
all_checks =
    warm_throughput ∷ dynamodb_limits ∷ api_gateway_throttle ∷ assign_position_concurrency
    ∷ open_schedule ∷ controller_schedule ∷ gate_ruleset ∷ status_caching ∷ gate_association ∷ []

pub data Status : Type 0 where
  pass warn fail not_evaluable : Status

abbrev pub rank : Status → ℕ
rank pass = 0
rank warn = 1
rank fail = 2
rank not_evaluable = 3

unfoldable pub worst : Status → Status → Status
worst self other = if ltb (rank self) (rank other) then other else self

pub data Table : Type 0 where
  counters pre_queue positions tokens : Table

pub record WarmTargets : Type 0 where
  pub write_units : ℤ
  pub read_units : ℤ

pub record WarmThroughput : Type 0 where
  pub write_units : Option ℤ
  pub read_units : Option ℤ
  pub warming : Bool

pub record DynamoDbLimits : Type 0 where
  pub table_max_write : Option ℤ
  pub table_max_read : Option ℤ
  pub account_max_write : Option ℤ
  pub account_max_read : Option ℤ

-- The rate is an `f64`.
pub record ApiGatewayThrottle (F : Type 0) : Type 0 where
  pub rate_limit : Option F
  pub burst_limit : Option ℤ

pub data ScheduleKind : Type 0 where
  open_kind controller_kind : ScheduleKind

pub record ScheduleFacts : Type 0 where
  pub enabled : Bool
  pub expression : Text
  pub timezone : Text

pub data CookieKey : Type 0 where
  no_cookies : CookieKey
  included : String → CookieKey

pub record CachingFacts : Type 0 where
  pub min_ttl : ℤ
  pub cookies : CookieKey

pub record EdgeFacts : Type 0 where
  pub status_path : String
  pub status_caching : Option CachingFacts
  pub gate_on_default : Bool
  pub gate_elsewhere : List String

-- The reason of a read that failed, that came too late after so many seconds, or that was of one
-- table.
pub data ProbeError : Type 0 where
  failed : String → ProbeError
  timed_out : ℕ → ProbeError
  of_table : Table → ProbeError → ProbeError
  not_published : ProbeError

pub data Note : Type 0 where
  could_not_evaluate : ProbeError → Note
  measured : Table → ℤ → ℤ → Note
  still_warming : Table → Note
  write_below read_below : Table → ℤ → ℤ → Note
  under_registration_rate : ℤ → Note
  no_prewarm : Note
  configured : ℤ → ℤ → Note
  limits_are : DynamoDbLimits → Note
  no_write_limit : Note
  limit_below_configured : ℤ → Note
  at_default below_needed no_rate : Note
  throttle_is : String → Option ℤ → Note
  unreserved : Note
  throttled_entirely reserved : ℤ → Note
  no_schedule : ScheduleKind → Note
  controller_disabled controller_enabled : Text → Note
  disabled enabled_at in_the_past not_one_time : Text → Text → Note
  no_rules : Note
  rules_configured : ℕ → Note
  fail_open_active : ℕ → ℕ → Note
  no_behaviour : String → Note
  caching_is : String → CachingFacts → Note
  every_poll_reaches_origin not_on_default default_only : Note
  also_on : List String → Note

pub record Row : Type 0 where
  pub check : CheckId
  pub status : Status
  pub detail : List Note
