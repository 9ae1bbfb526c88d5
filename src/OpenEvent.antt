-- ===== src/OpenEvent.antt =====
-- crates/open_event: the open, which fixes the cohort and publishes the seed, once. `open_event` is
-- over its persistence port; `dynamo_store` is the port over the tables.
pub mod Once
pub mod Change
pub mod Fold
use Prim.Native.String.{String}
use virtual_waiting_room.Prelude.{
  set, ℕ, zero, suc, ◌&&◌, Bool, true, false, Option, none, some, List, [], ◌∷◌, if◌then◌else◌, ltb,
  length,
}
use virtual_waiting_room.Prelude.Result.{Result, ok, err}
use virtual_waiting_room.Ids.{Phase, idle, pre_queue, active, post_event, maintenance}
use virtual_waiting_room.Assembly.{
  CohortOffsets, CohortError, overflow, shards, from_counts, offset,
}
use virtual_waiting_room.Items.Attributes.{Item, shard_index_of, shard_count_of}
use virtual_waiting_room.Items.Counters.{Counters}
use virtual_waiting_room.Tables.{Tables}

pub record OpenValues : Type 0 where
  pub seed : List ℕ
  pub participant_count : ℕ
  pub offsets : List ℕ

pub record StoreError : Type 0 where
  pub text : String

pub data OpenResult : Type 0 where
  opened : OpenValues → OpenResult
  already_open : OpenResult

-- The trait `Store`.
pub record Store (S : Type 0) : Type 0 where
  pub read_shard_counts : S → Result (List ℕ) StoreError × S
  pub write_open : OpenValues → S → Result Bool StoreError × S
  pub is_already_open : S → Result Bool StoreError × S

-- The loop over the ten slots: the offsets of the shards from `shard` on, `left` of them.
pub offset_slots : CohortOffsets → ℕ → ℕ → List ℕ
offset_slots c shard zero = []
offset_slots c shard (suc left) = offset c shard ∷ offset_slots c (suc shard) left

abbrev values_of : List ℕ → Result CohortOffsets CohortError → Result OpenValues CohortError
values_of seed (err e) = err e
values_of seed (ok c) = ok (record {
  seed = seed;
  participant_count = c.participant_count;
  offsets = offset_slots c 0 shards;
})

pub open_values : List ℕ → List ℕ → Result OpenValues CohortError
open_values counts seed = values_of seed (from_counts counts)

abbrev pub fold_error : StoreError
fold_error = record { text = "fold shard counts: pre-queue cohort size overflows u64" }

abbrev pub wrong_phase : StoreError
wrong_phase = record { text = "open rejected: event not in pre_queue phase" }

module _ {S : Type 0} (store : Store S) where
  abbrev pub after_check : Result Bool StoreError × S → Result OpenResult StoreError × S
  after_check (err e, world) = (err e, world)
  after_check (ok true, world) = (ok already_open, world)
  after_check (ok false, world) = (err wrong_phase, world)

  abbrev pub after_write :
      OpenValues → Result Bool StoreError × S → Result OpenResult StoreError × S
  after_write values (err e, world) = (err e, world)
  after_write values (ok true, world) = (ok (opened values), world)
  after_write values (ok false, world) = after_check (store.is_already_open world)

  abbrev pub after_fold : Result OpenValues CohortError → S → Result OpenResult StoreError × S
  after_fold (err e) world = (err fold_error, world)
  after_fold (ok values) world = after_write values (store.write_open values world)

  abbrev pub after_counts :
      List ℕ → Result (List ℕ) StoreError × S → Result OpenResult StoreError × S
  after_counts seed (err e, world) = (err e, world)
  after_counts seed (ok counts, world) = after_fold (open_values counts seed) world

  pub open_event : List ℕ → S → Result OpenResult StoreError × S
  unfolding open_values
  open_event seed world = after_counts seed (store.read_shard_counts world)

-- `open_guard`: no seed yet, and the phase is `pre_queue`. A missing item has neither.
abbrev is_pre_queue : Phase → Bool
is_pre_queue pre_queue = true
is_pre_queue idle = false
is_pre_queue active = false
is_pre_queue post_event = false
is_pre_queue maintenance = false

abbrev is_none {ℓ} : {A : Type ℓ} → Option A → Bool
is_none none = true
is_none (some a) = false

unfoldable pub open_guard : Counters → Bool
open_guard c = is_none c.shuffle_seed && is_pre_queue c.phase

-- The five attributes that the update sets.
unfoldable pub open_update : OpenValues → Counters → Counters
open_update values c = record c {
  shuffle_seed = some values.seed;
  participant_count = some values.participant_count;
  queue_counter = values.participant_count;
  prequeue_offsets = some values.offsets;
  phase = active;
}

unfoldable pub write_open : OpenValues → Tables → Result Bool StoreError × Tables
unfolding open_guard open_update
write_open values t = elim t.counters [
  | none ↦ (ok false, t)
  | some c ↦
      if open_guard c
      then (ok true, record t { counters = some (open_update values c) })
      else (ok false, t)
]

pub is_already_open : Tables → Result Bool StoreError × Tables
is_already_open t = elim t.counters [
  | none ↦ (ok false, t)
  | some c ↦ elim c.shuffle_seed [ none ↦ (ok false, t) | some seed ↦ (ok true, t) ]
]

abbrev pub dynamo_store : Store Tables
dynamo_store = record {
  read_shard_counts = λ t. (ok t.shard_counts, t);
  write_open = write_open;
  is_already_open = is_already_open;
}

abbrev unreadable : String → Result (List ℕ) StoreError
unreadable text = err (record { text = text })

-- The loop of `counts_from_shard_items`, with the array so far.
unfoldable pub counts_loop : List Item → List ℕ → Result (List ℕ) StoreError
counts_loop [] counts = ok counts
counts_loop (item ∷ items) counts = elim (shard_index_of item) [
  | none ↦ unreadable "shard item has an unreadable shard index"
  | some shard ↦ elim (shard_count_of item) [
    | none ↦ unreadable "shard item has an unreadable count"
    | some count ↦ counts_loop items (set counts shard count)
  ]
]

unfoldable pub counts_from_shard_items : List Item → Result (List ℕ) StoreError
counts_from_shard_items items = counts_loop items (0 ∷ 0 ∷ 0 ∷ 0 ∷ 0 ∷ 0 ∷ 0 ∷ 0 ∷ 0 ∷ 0 ∷ [])
