-- ===== src/Room.antt =====
-- The Lambdas of crates/assign_position, crates/open_event and crates/generate_token side by side:
-- each step is one whole invocation of one of them over the tables of an event, in any order. The
-- requests, their times and what the random generators answer are any.
pub mod Line
pub mod Held
pub mod Sound
pub mod Joins
pub mod Opens
pub mod Cases
pub mod Admits
pub mod Places
pub mod Kept
use Prim.Native.String.{String}
use virtual_waiting_room.Prelude.{
  ℕ, ◌+◌, ◌≤◌, ◌<◌, ◌≡◌, Option, none, some, List, [], length, get_or, u64_max,
}
use virtual_waiting_room.Prelude.Result.{Result}
use virtual_waiting_room.Possession.{PossessionSecret}
use virtual_waiting_room.Assembly.{Shard, shards}
use virtual_waiting_room.Items.Counters.{Counters}
use virtual_waiting_room.Tables.{Tables}
use virtual_waiting_room.AssignPosition.{JoinMessage, BatchRecord}
use virtual_waiting_room.AssignPosition.Batch.{process_batch}
use virtual_waiting_room.AssignPosition.Live.{dynamo_store as join_store}
use virtual_waiting_room.AssignPosition.Live.Line.{line_end}
use virtual_waiting_room.OpenEvent.{open_event, dynamo_store as open_store}
use virtual_waiting_room.GenerateToken.Decide.{Denied, resolve_position}
use virtual_waiting_room.GenerateToken.Admit.{Minting, admit}
use virtual_waiting_room.GenerateToken.Live.{
  find_prequeue, find_position, position_from_item, dynamo_store as admission_store,
}

-- What the operator and the controller leave alone in the item of an event: the four attributes of
-- an open that a place depends on.
pub record IsSameOpen (c c' : Counters) : Type 0 where
  pub same_seed : c'.shuffle_seed ≡ c.shuffle_seed
  pub same_offsets : c'.prequeue_offsets ≡ c.prequeue_offsets
  pub same_count : c'.participant_count ≡ c.participant_count
  pub same_line : c'.queue_counter ≡ c.queue_counter

-- The item has no seed, or is not there.
abbrev pub IsUnopened : Option Counters → Type 0
IsUnopened none = Unit {0}
IsUnopened (some c) = c.shuffle_seed ≡ none

-- An event that is set up and that nobody has joined.
pub record IsFresh (t : Tables) : Type 0 where
  pub ten : length t.shard_counts ≡ shards
  pub unopened : IsUnopened t.counters
  pub no_prequeue : t.prequeue ≡ []
  pub no_positions : t.positions ≡ []

module _ (hmac : List ℕ → List ℕ → List ℕ) (sha256_base64url : String → String) where
  -- The `u64` counters have room for a batch.
  pub data Step : Tables → Tables → Type 0 where
    joined :
        (now : ℕ) (from_str : String → Option JoinMessage) (event_id : String) (shard : Shard)
        (records : List BatchRecord) (t : Tables)
        → shard.index < shards
        → line_end t + length records ≤ u64_max
        → get_or t.shard_counts shard.index 0 + length records ≤ u64_max
        → Step t (process_batch (join_store now) from_str event_id shard records t).1
    opened : (seed : List ℕ) (t : Tables) → Step t (open_event open_store seed t).1
    asked :
        (minting : Minting) (request_id : String) (secret : PossessionSecret)
        (viewer_ip : Option String) (now : ℕ) (entropy : List (Option ℕ)) (t : Tables)
        → Step t
            (admit hmac sha256_base64url admission_store minting request_id secret viewer_ip now
              (record { tables = t; entropy = entropy })).1.tables
    operated :
        (c c' : Counters) (t : Tables)
        → t.counters ≡ some c
        → IsSameOpen c c'
        → Step t (record t { counters = some c' })

  pub data Reach (s : Tables) : Tables → Type 0 where
    here : Reach s s
    next : {t u : Tables} → Reach s t → Step t u → Reach s u

-- The place on which the admission of a visitor is decided.
abbrev pub held_by : (List ℕ → List ℕ → List ℕ) → String → Tables → Counters → Result ℕ Denied
held_by hmac id t c =
    resolve_position hmac c (find_prequeue id t.prequeue)
      (position_from_item (find_position id t.positions))
