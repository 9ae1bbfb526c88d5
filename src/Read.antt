-- ===== src/Read.antt =====
-- crates/read/src/lib.rs: the counters cache of one container, the poll policy, and the payloads of
-- `/status` and `/queue_num`. An instant is a number of time units, and a lock that is held by a
-- panicking thread is `poisoned`.
pub mod Cache
pub mod Audit
use Prim.Native.String.{String}
use virtual_waiting_room.Prelude.{
  ℕ, ◌-◌, ◌&&◌, ◌||◌, Bool, true, false, not, Option, none, some, List, leb, ltb, if◌then◌else◌,
  u32_max,
}
use virtual_waiting_room.Prelude.Result.{Result, ok, err}
use virtual_waiting_room.Prelude.Text.{codes}
use virtual_waiting_room.Ids.{Phase, ServingState, resolve, serving_state}
use virtual_waiting_room.Items.Attributes.{and_then, parse_u32}
use virtual_waiting_room.Items.Counters.{Counters, PreQueueItem}
use virtual_waiting_room.Items.Resolve.{
  ResolvedPosition, at, straggler, ResolveError, not_open, bad_shard, resolve_prequeue,
}

pub record CountersCache : Type 0 where
  pub ttl : ℕ
  pub poisoned : Bool
  pub slot : Option (ℕ × Option Counters)

unfoldable pub new_cache : ℕ → CountersCache
new_cache ttl = record { ttl = ttl; poisoned = false; slot = none }

-- `Instant::duration_since` stops at zero.
abbrev fresh_value : ℕ → ℕ → ℕ × Option Counters → Option (Option Counters)
fresh_value ttl now (stored_at, value) = if ltb (now - stored_at) ttl then some value else none

unfoldable pub get : CountersCache → ℕ → Option (Option Counters)
get cache now = if cache.poisoned then none else and_then cache.slot (fresh_value cache.ttl now)

unfoldable pub put : CountersCache → ℕ → Option Counters → CountersCache
put cache now value = if cache.poisoned then cache else record cache { slot = some (now, value) }

pub record PollPolicy : Type 0 where
  pub floor_ms : ℕ
  pub ceiling_ms : ℕ
  pub divisor : ℕ

abbrev pub min_interval_ms : ℕ
min_interval_ms = 1000

abbrev pub max_interval_ms : ℕ
max_interval_ms = 300000

abbrev pub max_divisor : ℕ
max_divisor = 1000

-- `(low..=high).contains(&x)`.
abbrev contains : ℕ → ℕ → ℕ → Bool
contains low high x = leb low x && leb x high

-- The policy of the three numbers read, if it is inside the bounds.
abbrev pub policy_of : Option ℕ → Option ℕ → Option ℕ → Option PollPolicy
policy_of none ceiling divisor = none
policy_of (some floor_ms) none divisor = none
policy_of (some floor_ms) (some ceiling_ms) none = none
policy_of (some floor_ms) (some ceiling_ms) (some divisor) =
    if not (contains min_interval_ms max_interval_ms floor_ms)
      || not (contains min_interval_ms max_interval_ms ceiling_ms)
      || not (contains 1 max_divisor divisor)
      || ltb ceiling_ms floor_ms
    then none
    else some (record { floor_ms = floor_ms; ceiling_ms = ceiling_ms; divisor = divisor })

unfoldable pub parse_poll_policy : Option String → Option String → Option String → Option PollPolicy
parse_poll_policy floor_ms ceiling_ms divisor =
    policy_of (and_then floor_ms parse_u32) (and_then ceiling_ms parse_u32)
      (and_then divisor parse_u32)

pub record StatusResponse : Type 0 where
  pub event_id : String
  pub phase : Phase
  pub serving_state : ServingState
  pub serving_position : ℕ
  pub participant_count : Option ℕ
  pub prequeue_offsets : Option (List ℕ)
  pub shuffle_seed : Option String
  pub message : Option String
  pub target_rate : Option ℕ
  pub poll_policy : Option PollPolicy
  pub starts_at : Option ℕ

pub record QueueNumResponse : Type 0 where
  pub position : ℕ
  pub live_join : Bool

pub data ResolvedQueueNum : Type 0 where
  pre_queued : QueueNumResponse → ResolvedQueueNum
  straggled : ResolvedQueueNum

pub data QueueNumError : Type 0 where
  queue_not_open queue_bad_shard : QueueNumError

-- `hex_encode` is `hex::encode`, of a package.
module _ (hex_encode : List ℕ → String) where
  unfoldable pub status : Counters → Option PollPolicy → ℕ → StatusResponse
  status counters poll_policy now = record {
    event_id = counters.event_id;
    phase = counters.phase;
    serving_state =
        serving_state counters.phase (resolve counters.stored_control counters.fail_open_until now);
    serving_position = counters.serving_counter;
    participant_count = counters.participant_count;
    prequeue_offsets = counters.prequeue_offsets;
    shuffle_seed = and_then counters.shuffle_seed (λ seed. some (hex_encode seed));
    message = counters.message;
    target_rate = counters.target_rate;
    poll_policy = poll_policy;
    starts_at = counters.starts_at;
  }

module _ (hmac : List ℕ → List ℕ → List ℕ) where
  abbrev pub answer : Result ResolvedPosition ResolveError → Result ResolvedQueueNum QueueNumError
  answer (ok (at position)) = ok (pre_queued (record { position = position; live_join = false }))
  answer (ok straggler) = ok straggled
  answer (err not_open) = err queue_not_open
  answer (err bad_shard) = err queue_bad_shard

  unfoldable pub queue_num : Counters → PreQueueItem → Result ResolvedQueueNum QueueNumError
  queue_num counters row = answer (resolve_prequeue hmac counters row)
