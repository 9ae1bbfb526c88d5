-- ===== src/Assembly.antt =====
-- crates/wr-common/src/permutation/assembly.rs: the index space of the pre-queue. The counters of
-- ten shards are folded into prefix offsets, and a registration `(shard, local index)` is given its
-- global index back. An array of ten is a list of length ten.
pub mod Laws
use virtual_waiting_room.Prelude.{
  ℕ, suc, ◌+◌, ◌%◌, Option, none, some, List, [], ◌∷◌, leb, ltb, if◌then◌else◌, get_elem?, get_or,
  checked_add, checked_sub,
}
use virtual_waiting_room.Prelude.Result.{Result, ok, err, ok_or, ◌>>=◌}

-- `SHARDS`.
abbrev pub shards : ℕ
shards = 10

pub record CohortOffsets : Type 0 where
  pub offsets : List ℕ
  pub participant_count : ℕ

pub data Assignment : Type 0 where
  pre_queue : ℕ → Assignment
  live_join : Assignment

pub data CohortError : Type 0 where
  overflow : CohortError

-- The loop of `from_counts` from one shard on: the offsets of the shards that are left, and the
-- running total after the last.
unfoldable pub from_counts_loop : List ℕ → ℕ → Result (List ℕ × ℕ) CohortError
from_counts_loop [] running = ok ([], running)
from_counts_loop (count ∷ counts) running = do
  next ← ok_or (checked_add running count) overflow
  rest ← from_counts_loop counts next
  ok (running ∷ rest.0, rest.1)

unfoldable pub from_counts : List ℕ → Result CohortOffsets CohortError
from_counts counts = do
  out ← from_counts_loop counts 0
  ok (record { offsets = out.0; participant_count = out.1 })

unfoldable pub from_parts : List ℕ → ℕ → CohortOffsets
from_parts offsets participant_count = record {
  offsets = offsets;
  participant_count = participant_count;
}

-- `self.offsets[shard]`; the callers' shards are in range.
unfoldable pub offset : CohortOffsets → ℕ → ℕ
offset c shard = get_or c.offsets shard 0

abbrev pub unwrap_or {ℓ} : {A : Type ℓ} → Option A → A → A
unwrap_or none d = d
unwrap_or (some a) d = a

unfoldable pub shard_count : CohortOffsets → ℕ → Option ℕ
shard_count c shard = elim (get_elem? c.offsets shard) [
  | none ↦ none
  | some start ↦
      let end = unwrap_or (get_elem? c.offsets (suc shard)) c.participant_count in
      checked_sub end start
]

abbrev indexed : Option ℕ → Assignment
indexed (some index) = pre_queue index
indexed none = live_join

abbrev assign_within : ℕ → Option ℕ → ℕ → Assignment
assign_within offset none local_index = live_join
assign_within offset (some count) local_index =
    if leb count local_index then live_join else indexed (checked_add offset local_index)

unfoldable pub assign : CohortOffsets → ℕ → ℕ → Assignment
unfolding shard_count
assign c shard local_index = elim (get_elem? c.offsets shard) [
  | none ↦ live_join
  | some offset ↦ assign_within offset (shard_count c shard) local_index
]

-- A registration shard, below `shards`.
pub record Shard : Type 0 where
  pub index : ℕ

pub data RandError : Type 0 where
  rand_error : RandError

-- `Shard::random`, from what the system's generator gave: eight bytes as a big-endian number, or
-- nothing.
unfoldable pub random : Option ℕ → Result Shard RandError
random none = err rand_error
random (some bytes) = ok (record { index = bytes % shards })

pub new_shard : ℕ → Option Shard
new_shard index = if ltb index shards then some (record { index = index }) else none
