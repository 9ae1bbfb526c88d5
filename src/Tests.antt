-- ===== src/Tests.antt =====
-- Concrete runs of the code, and the data that they share.
mod Places
mod Releases
mod Openings
mod Admissions
mod Joins
mod Reads
mod Operators
mod Texts
mod Rooms
mod Panels
mod Logins
use Prim.Native.String.{String}
use virtual_waiting_room.Prelude.{
  ℕ, zero, suc, ◌+◌, ◌*◌, ◌%◌, ◌/◌, get_or, Option, none, some, List, [], ◌∷◌,
}
use virtual_waiting_room.Ids.{Phase, active, pre_queue, StoredControl, open_control}
use virtual_waiting_room.Possession.{SecretDigest}
use virtual_waiting_room.Permutation.{Seed}
use virtual_waiting_room.Items.Counters.{Counters, PreQueueItem}
use virtual_waiting_room.Tables.{Tables}

-- A tag of four bytes, the last from the round and the half.
abbrev pub sample_hmac : List ℕ → List ℕ → List ℕ
sample_hmac key msg =
    let round = get_or msg 0 0 in
    let half = get_or msg 4 0 in 0 ∷ 0 ∷ 0 ∷ (round * 5 + half * 3 + half / 2 + 1) % 256 ∷ []

abbrev pub sample_seed : List ℕ
sample_seed = 7 ∷ 7 ∷ 7 ∷ []

-- Five registrations on three shards.
abbrev pub sample_counts : List ℕ
sample_counts = 2 ∷ 0 ∷ 2 ∷ 0 ∷ 0 ∷ 1 ∷ 0 ∷ 0 ∷ 0 ∷ 0 ∷ []

abbrev pub fresh_counters : Counters
fresh_counters = record {
  event_id = "event";
  phase = pre_queue;
  queue_counter = 0;
  serving_counter = 0;
  shuffle_seed = none;
  participant_count = none;
  prequeue_offsets = none;
  message = none;
  target_rate = none;
  stored_control = open_control;
  fail_open_until = 0;
  starts_at = none;
}

abbrev pub opened_counters : Counters
opened_counters = record fresh_counters {
  phase = active;
  queue_counter = 5;
  shuffle_seed = some sample_seed;
  participant_count = some 5;
  prequeue_offsets = some (0 ∷ 2 ∷ 2 ∷ 4 ∷ 4 ∷ 4 ∷ 5 ∷ 5 ∷ 5 ∷ 5 ∷ []);
}

abbrev pub sample_row : String → ℕ → ℕ → PreQueueItem
sample_row id shard local_index = record { r = id; s = shard; l = local_index; t = 100; h = none }

abbrev pub fresh_tables : Tables
fresh_tables = record {
  counters = some fresh_counters;
  shard_counts = sample_counts;
  arrivals = 0 ∷ 0 ∷ 0 ∷ 0 ∷ 0 ∷ 0 ∷ 0 ∷ 0 ∷ 0 ∷ 0 ∷ [];
  prequeue = sample_row "a" 0 0 ∷ sample_row "b" 5 0 ∷ [];
  positions = [];
}

abbrev pub opened_tables : Tables
opened_tables = record fresh_tables { counters = some opened_counters }
