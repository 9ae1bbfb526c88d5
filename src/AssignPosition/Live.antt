-- ===== src/AssignPosition/Live.antt =====
-- `DynamoStore` of crates/assign_position/src/dynamo.rs over the tables. `now` is the clock's
-- answer during the batch. A row of `Positions` or `PreQueue` is put in front: a table has no
-- order.
pub mod Line
pub mod Batch
pub mod Shared
pub mod Register
use Prim.Native.String.{String}
use text.Mathlib.Text.{◌==◌ as str_eq}
use virtual_waiting_room.Prelude.{
  ℕ, zero, suc, ◌+◌, Bool, true, false, Option, none, some, List, [], ◌∷◌, if◌then◌else◌, leb, ltb,
  get_or, saturating_add, checked_sub, u64_max,
}
use virtual_waiting_room.Prelude.Result.{Result, ok, err, ok_or}
use virtual_waiting_room.Ids.{idle, open_control}
use virtual_waiting_room.Assembly.{Shard}
use virtual_waiting_room.Items.Counters.{Counters, PreQueueItem, PositionItem, issued}
use virtual_waiting_room.Tables.{Tables}
use virtual_waiting_room.GenerateToken.Live.{position_ttl_secs}
use virtual_waiting_room.AssignPosition.{
  Store, StoreError, PositionWrite, PreQueueWrite, WriteOutcome, written, duplicate,
}

-- An `ADD` to a table that has no item creates one with that attribute alone.
abbrev pub item_of : String → Option Counters → Counters
item_of event_id (some c) = c
item_of event_id none = record {
  event_id = event_id;
  phase = idle;
  queue_counter = 0;
  serving_counter = 0;
  shuffle_seed = none;
  participant_count = none;
  prequeue_offsets = none;
  message = none;
  target_rate = none;
  stored_control = open_control;
  fail_open_until = 0;
  starts_at = none;
}

-- A sum that is no `u64` has been stored and cannot be read back.
abbrev pub read_u64 : String → ℕ → Result ℕ StoreError
read_u64 missing x = if leb x u64_max then ok x else err (record { text = missing })

unfoldable pub claim_block : String → ℕ → Tables → Result ℕ StoreError × Tables
claim_block event_id n t =
    let c = item_of event_id t.counters in
    let end = c.queue_counter + n in
    (
      read_u64 "queue_counter missing in ALL_NEW" end,
      record t { counters = some (record c { queue_counter = end }) },
    )

unfoldable pub has_position : String → List PositionItem → Bool
has_position id [] = false
has_position id (row ∷ rows) = if str_eq row.request_id id then true else has_position id rows

unfoldable pub put_position : ℕ → PositionWrite → Tables → Result WriteOutcome StoreError × Tables
put_position now w t = if has_position w.request_id t.positions then (ok duplicate, t) else (
  ok written,
  record t {
    positions =
        record {
          request_id = w.request_id;
          queue_position = w.position;
          entry_time = now;
          status = issued;
          h = some w.digest;
          ttl = saturating_add now position_ttl_secs;
        }
        ∷ t.positions;
  },
)

unfoldable pub add_at : List ℕ → ℕ → ℕ → List ℕ
add_at [] i n = []
add_at (x ∷ xs) zero n = (x + n) ∷ xs
add_at (x ∷ xs) (suc i) n = x ∷ add_at xs i n

unfoldable pub first_local_index : ℕ → ℕ → ℕ → Result ℕ StoreError
first_local_index shard shard_count_after_add count =
    ok_or (checked_sub shard_count_after_add count) (record { text = "underflowed claiming" })

abbrev pub claimed_from : ℕ → ℕ → Result ℕ StoreError → Result ℕ StoreError
claimed_from shard count (err e) = err e
claimed_from shard count (ok end) = first_local_index shard end count

unfoldable pub claim_prequeue_block : String → Shard → ℕ → Tables → Result ℕ StoreError × Tables
claim_prequeue_block event_id shard count t =
    let counts = add_at t.shard_counts shard.index count in
    (
      claimed_from shard.index count
          (read_u64 "shard count missing in ALL_NEW" (get_or counts shard.index 0)),
      record t { shard_counts = counts },
    )

unfoldable pub has_registration : String → List PreQueueItem → Bool
has_registration id [] = false
has_registration id (row ∷ rows) = if str_eq row.r id then true else has_registration id rows

unfoldable pub put_prequeue : ℕ → PreQueueWrite → Tables → Result WriteOutcome StoreError × Tables
put_prequeue now w t = if has_registration w.request_id t.prequeue then (ok duplicate, t) else (
  ok written,
  record t {
    prequeue =
        record {
          r = w.request_id;
          s = w.shard.index;
          l = w.local_index;
          t = now;
          h = some w.digest;
        }
        ∷ t.prequeue;
  },
)

-- The ids among those asked for that have a row.
unfoldable pub registered : List PreQueueItem → List String → List String
registered rows [] = []
registered rows (id ∷ ids) =
    if has_registration id rows then id ∷ registered rows ids else registered rows ids

abbrev pub dynamo_store : ℕ → Store Tables
dynamo_store now = record {
  claim_block = claim_block;
  put_position = put_position now;
  load_counters = λ event_id t. (ok t.counters, t);
  claim_prequeue_block = claim_prequeue_block;
  put_prequeue = put_prequeue now;
  registered_ids = λ ids t. (ok (registered t.prequeue ids), t);
}
