-- ===== src/Tables.antt =====
-- The DynamoDB tables of one event as the live stores of the Lambdas read and write them: the
-- `Counters` item, the pre-queue and arrival shards, and the rows of `PreQueue` and `Positions`. An
-- attribute that a request sets is a field here; a shard that nothing has written counts 0.
use virtual_waiting_room.Prelude.{ℕ, Option, List}
use virtual_waiting_room.Items.Counters.{Counters, PreQueueItem, PositionItem}

pub record Tables : Type 0 where
  pub counters : Option Counters
  pub shard_counts : List ℕ
  pub arrivals : List ℕ
  pub prequeue : List PreQueueItem
  pub positions : List PositionItem
