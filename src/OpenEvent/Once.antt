-- ===== src/OpenEvent/Once.antt =====
-- `open_event` of crates/open_event over the tables: the first open, a later one, and one in a
-- wrong phase.
use virtual_waiting_room.Prelude.{
  ℕ, zero, suc, ◌+◌, ◌≤◌, ◌≡◌, ◌≢◌, refl, ap, ◌∙◌, none, some, List, [], ◌∷◌, arith, length, get_or,
  u64_max, leb, if◌then◌else◌,
}
use virtual_waiting_room.Prelude.Result.{ok, err}
use virtual_waiting_room.Ids.{pre_queue, active}
use virtual_waiting_room.Assembly.{CohortOffsets, overflow, shards, offset}
use virtual_waiting_room.Assembly.Laws.{sum, prefix_sums, index_space, from_counts_lem}
use virtual_waiting_room.Items.Counters.{Counters}
use virtual_waiting_room.Items.Resolve.Laws.{IsOpened}
use virtual_waiting_room.Tables.{Tables}
use virtual_waiting_room.OpenEvent.{
  OpenValues, opened, already_open, offset_slots, open_values, open_event, open_guard, open_update,
  write_open, is_already_open, dynamo_store, wrong_phase,
}

module _ (n : ℕ) where
  abbrev holding : List ℕ → CohortOffsets
  holding xs = record { offsets = xs; participant_count = n }

  offset_slots-cons :
      (x : ℕ) (xs : List ℕ) (k left : ℕ)
      → offset_slots (holding (x ∷ xs)) (suc k) left ≡ offset_slots (holding xs) k left
  unfolding offset_slots offset
  offset_slots-cons x xs k zero = refl
  offset_slots-cons x xs k (suc left) =
      ap (λ rest. get_or xs k 0 ∷ rest) (offset_slots-cons x xs (suc k) left)

  -- Reading every slot of an array copies it.
  offset_slots_copy : (xs : List ℕ) → offset_slots (holding xs) 0 (length xs) ≡ xs
  unfolding offset_slots offset
  offset_slots_copy [] = refl
  offset_slots_copy (x ∷ xs) =
      ap (λ rest. x ∷ rest) (offset_slots-cons x xs 0 (length xs) ∙ offset_slots_copy xs)

length-prefix_sums : (r : ℕ) (xs : List ℕ) → length (prefix_sums r xs) ≡ length xs
length-prefix_sums r [] = refl
length-prefix_sums r (x ∷ xs) = ap suc (length-prefix_sums (r + x) xs)

abbrev pub values_from : List ℕ → List ℕ → OpenValues
values_from counts seed = record {
  seed = seed;
  participant_count = sum counts;
  offsets = prefix_sums 0 counts;
}

pub open_values_lem :
    (counts seed : List ℕ)
    → length counts ≡ shards
    → open_values counts seed
      ≡ (if leb (sum counts) u64_max then ok (values_from counts seed) else err overflow)
unfolding open_values
open_values_lem counts seed ten =
    let slots : offset_slots (index_space counts) 0 shards ≡ prefix_sums 0 counts =
      rw (← (length-prefix_sums 0 counts ∙ ten))
        (offset_slots_copy (sum counts) (prefix_sums 0 counts)) in
    rw from_counts_lem (ground (arith, slots))

-- The tables after an open of the cohort `counts`: the item has the five attributes, and nothing
-- else has changed.
abbrev pub opened_tables : Tables → Counters → List ℕ → List ℕ → Tables
unfolding open_update
opened_tables t c counts seed = record t {
  counters = some (open_update (values_from counts seed) c);
}

module _ (t : Tables) (c : Counters) (seed : List ℕ) (ten : length t.shard_counts ≡ shards)
    (stored : t.counters ≡ some c) where
  folded :
      sum t.shard_counts ≤ u64_max
      → open_values t.shard_counts seed ≡ ok (values_from t.shard_counts seed)
  folded fits = ground (arith, open_values_lem t.shard_counts seed ten)

  -- The first open of an event in `pre_queue` whose cohort fits a `u64` writes the values folded
  -- from the shard counts and reports them; the written item is that of an opened cohort, and the
  -- live-join sequence starts behind it.
  pub open_event_opens :
      sum t.shard_counts ≤ u64_max
      → c.shuffle_seed ≡ none
      → c.phase ≡ pre_queue
      → let c' = open_update (values_from t.shard_counts seed) c in
        (open_event dynamo_store seed t
          ≡ (ok (opened (values_from t.shard_counts seed)), record t { counters = some c' }))
        × IsOpened t.shard_counts seed c'
        × (c'.queue_counter ≡ sum t.shard_counts)
        × (c'.phase ≡ active)
  unfolding open_event write_open open_guard
  open_event_opens fits fresh phase = (
    rw (folded fits) (ground arith),
    record { ten = ten; fits = fits; has_seed = refl; has_offsets = refl; has_count = refl },
    refl,
    refl,
  )

  -- Where the shard counts fit a `u64`, an open of an event that has a seed changes nothing and
  -- reports that it was open; this holds for every phase that an operator may have walked the event
  -- to.
  pub open_event_again :
      (old : List ℕ)
      → sum t.shard_counts ≤ u64_max
      → c.shuffle_seed ≡ some old
      → open_event dynamo_store seed t ≡ (ok already_open, t)
  unfolding open_event write_open open_guard is_already_open
  open_event_again old fits has = rw (folded fits) (ground arith)

  -- Where the shard counts fit a `u64`, an open of an event without a seed in any other phase
  -- changes nothing and is an error, so that it is retried and not taken for an open.
  pub open_event-wrong_phase :
      sum t.shard_counts ≤ u64_max
      → c.shuffle_seed ≡ none
      → c.phase ≢ pre_queue
      → open_event dynamo_store seed t ≡ (err wrong_phase, t)
  unfolding open_event write_open open_guard is_already_open
  open_event-wrong_phase fits fresh phase = rw (folded fits) (ground arith)
