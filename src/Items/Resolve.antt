-- ===== src/Items/Resolve.antt =====
-- `open_outputs` and `resolve_prequeue`: the position of a pre-queue registration.
pub mod Laws
use virtual_waiting_room.Prelude.{ℕ, Option, none, some, List, leb, if◌then◌else◌}
use virtual_waiting_room.Prelude.Result.{Result, ok, err, ok_or, ◌>>=◌}
use virtual_waiting_room.Permutation.{Seed, prp}
use virtual_waiting_room.Assembly.{
  shards, CohortOffsets, Assignment, pre_queue, live_join, from_parts, assign,
}
use virtual_waiting_room.Items.Attributes.{and_then}
use virtual_waiting_room.Items.Counters.{Counters, PreQueueItem}

pub record OpenOutputs : Type 0 where
  pub offsets : CohortOffsets
  pub seed : Seed

pub data ResolvedPosition : Type 0 where
  at : ℕ → ResolvedPosition
  straggler : ResolvedPosition

pub data ResolveError : Type 0 where
  not_open bad_shard : ResolveError

unfoldable pub open_outputs : Counters → Option OpenOutputs
unfolding from_parts
open_outputs c = and_then c.shuffle_seed λ seed_bytes. and_then c.prequeue_offsets λ offsets.
    and_then c.participant_count λ participant_count. some (record {
      offsets = from_parts offsets participant_count;
      seed = record { bytes = seed_bytes };
    })

module _ (hmac : List ℕ → List ℕ → List ℕ) where
  abbrev pub position_of : OpenOutputs → Assignment → ResolvedPosition
  position_of opened (pre_queue index) =
      at (prp hmac opened.seed index opened.offsets.participant_count)
  position_of opened live_join = straggler

  unfoldable pub resolve_prequeue : Counters → PreQueueItem → Result ResolvedPosition ResolveError
  unfolding open_outputs
  resolve_prequeue c row = do
    opened ← ok_or (open_outputs c) not_open
    if leb shards row.s
        then err bad_shard
        else ok (position_of opened (assign opened.offsets row.s row.l))
