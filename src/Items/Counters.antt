-- ===== src/Items/Counters.antt =====
-- The rows of the three tables and `Counters::from_item`.
use Prim.Native.String.{String}
use text.Mathlib.Text.{◌==◌ as str_eq}
use virtual_waiting_room.Prelude.{
  ℕ, Option, none, some, List, [], ◌∷◌, leb, ◌==◌, if◌then◌else◌, length, u32_max,
}
use virtual_waiting_room.Prelude.Result.{Result, ok, err}
use virtual_waiting_room.Ids.{Phase, idle, StoredControl, parse_phase}
use virtual_waiting_room.Possession.{SecretDigest}
use virtual_waiting_room.Assembly.{shards, unwrap_or}
use virtual_waiting_room.Items.Attributes.{
  AttributeValues, nil, cons, Item, get, and_then, as_n, as_s, as_b, as_l, parse_u64, num,
  stored_control_of,
}

pub data PositionStatus : Type 0 where
  issued admitted : PositionStatus

-- A row of `PreQueue`: the registration of request `r`.
pub record PreQueueItem : Type 0 where
  pub r : String
  pub s : ℕ
  pub l : ℕ
  pub t : ℕ
  pub h : Option SecretDigest

-- A row of `Positions`.
pub record PositionItem : Type 0 where
  pub request_id : String
  pub queue_position : ℕ
  pub entry_time : ℕ
  pub status : PositionStatus
  pub h : Option SecretDigest
  pub ttl : ℕ

pub record Counters : Type 0 where
  pub event_id : String
  pub phase : Phase
  pub queue_counter : ℕ
  pub serving_counter : ℕ
  pub shuffle_seed : Option (List ℕ)
  pub participant_count : Option ℕ
  pub prequeue_offsets : Option (List ℕ)
  pub message : Option String
  pub target_rate : Option ℕ
  pub stored_control : StoredControl
  pub fail_open_until : ℕ
  pub starts_at : Option ℕ

-- `try_from` of a list to an array of the given length.
abbrev pub as_array : ℕ → List ℕ → Option (List ℕ)
as_array size xs = if length xs == size then some xs else none

-- Every entry of the stored list as a number, or nothing if one cannot be read.
pub parse_offsets : AttributeValues → Option (List ℕ)
parse_offsets nil = some []
parse_offsets (cons v vs) =
    and_then (and_then (as_n v) parse_u64) (λ x. and_then (parse_offsets vs) (λ xs. some (x ∷ xs)))

abbrev ok_value {ℓ κ} : {A : Type ℓ} {E : Type κ} → Result A E → Option A
ok_value (ok a) = some a
ok_value (err e) = none

pub stored_phase : Item → Phase
stored_phase item =
    unwrap_or (and_then (and_then (get "phase" item) as_s) (λ text. ok_value (parse_phase text)))
      idle

pub stored_offsets : Item → Option (List ℕ)
unfolding parse_offsets
stored_offsets item =
    and_then (and_then (get "prequeue_offsets" item) as_l)
      (λ vs. and_then (parse_offsets vs) (as_array shards))

pub from_item : String → Item → Counters
unfolding stored_phase stored_offsets
from_item event_id item = record {
  event_id = event_id;
  phase = stored_phase item;
  queue_counter = unwrap_or (num item "queue_counter") 0;
  serving_counter = unwrap_or (num item "serving_counter") 0;
  shuffle_seed = and_then (and_then (get "shuffle_seed" item) as_b) (as_array 32);
  participant_count = num item "participant_count";
  prequeue_offsets = stored_offsets item;
  message =
      and_then (and_then (get "message" item) as_s)
        (λ text. if str_eq text "" then none else some text);
  target_rate = and_then (num item "target_rate") (λ x. if leb x u32_max then some x else none);
  stored_control = stored_control_of item;
  fail_open_until = unwrap_or (num item "fail_open_until") 0;
  starts_at = num item "starts_at";
}
