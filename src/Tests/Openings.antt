-- ===== src/Tests/Openings.antt =====
-- Runs of the open.
use virtual_waiting_room.Prelude.{List, ◌↔◌, ◌≡◌, refl, some, [], ◌∷◌, arith}
use virtual_waiting_room.Prelude.Result.{ok}
use virtual_waiting_room.Ids.{active, idle}
use virtual_waiting_room.Items.Counters.{Counters}
use virtual_waiting_room.Items.Resolve.Laws.{IsOpened}
use virtual_waiting_room.Tables.{Tables}
use virtual_waiting_room.OpenEvent.{
  open_event, open_update, dynamo_store, opened, already_open, counts_loop, counts_from_shard_items,
}
use virtual_waiting_room.OpenEvent.Once.{values_from, open_event_opens, open_event_again}
use virtual_waiting_room.OpenEvent.Fold.{IsReadable, IsLastCounts, counts_from_shard_items_lem}
use virtual_waiting_room.Items.Attributes.{
  Item, n, get, num, parse_u64, parse_unsigned, parse_digits, digits_value, shard_index_of,
  shard_count_of,
}
use virtual_waiting_room.Tests.{
  sample_seed, sample_counts, fresh_counters, opened_counters, fresh_tables, opened_tables,
}

open_event_opens_example :
    let c' = open_update (values_from sample_counts sample_seed) fresh_counters in
    (open_event dynamo_store sample_seed fresh_tables ≡ (
      ok (opened (values_from sample_counts sample_seed)),
      record fresh_tables { counters = some c' },
    ))
    × IsOpened sample_counts sample_seed c'
    × (c'.queue_counter ≡ 5)
    × (c'.phase ≡ active)
open_event_opens_example =
    open_event_opens fresh_tables fresh_counters sample_seed refl refl (omega arith) refl refl

open_event_again_example :
    open_event dynamo_store (1 ∷ []) opened_tables ≡ (ok already_open, opened_tables)
open_event_again_example =
    open_event_again opened_tables opened_counters (1 ∷ []) refl refl sample_seed (omega arith) refl

abbrev idle_counters : Counters
idle_counters = record fresh_counters { phase = idle }

abbrev idle_tables : Tables
idle_tables = record fresh_tables { counters = some idle_counters }

-- Two shards have items, in any order.
abbrev shard_items : List Item
shard_items = (("s", n "5") ∷ ("n", n "1") ∷ []) ∷ (("n", n "2") ∷ ("s", n "0") ∷ []) ∷ []

counts_from_shard_items_lem_example :
    (counts_from_shard_items shard_items ≡ ok (2 ∷ 0 ∷ 0 ∷ 0 ∷ 0 ∷ 1 ∷ 0 ∷ 0 ∷ 0 ∷ 0 ∷ [])) ↔ (
      IsReadable shard_items
      × IsLastCounts shard_items (2 ∷ 0 ∷ 0 ∷ 0 ∷ 0 ∷ 1 ∷ 0 ∷ 0 ∷ 0 ∷ 0 ∷ []))
counts_from_shard_items_lem_example =
    counts_from_shard_items_lem shard_items (2 ∷ 0 ∷ 0 ∷ 0 ∷ 0 ∷ 1 ∷ 0 ∷ 0 ∷ 0 ∷ 0 ∷ [])

shard_items_counted :
    counts_from_shard_items shard_items ≡ ok (2 ∷ 0 ∷ 0 ∷ 0 ∷ 0 ∷ 1 ∷ 0 ∷ 0 ∷ 0 ∷ 0 ∷ [])
unfolding counts_from_shard_items counts_loop shard_index_of shard_count_of num get parse_u64
    parse_unsigned parse_digits digits_value
shard_items_counted = refl
