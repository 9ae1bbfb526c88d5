-- ===== src/Tests/Joins.antt =====
-- Runs of a batch of joins. A join's body is its request id.
use Prim.Native.String.{String}
use virtual_waiting_room.Prelude.{◌≡◌, refl, Option, some, List, [], ◌∷◌, map, arith}
use virtual_waiting_room.Prelude.Result.{ok}
use virtual_waiting_room.Ids.{is_uuid_shape, uuid_loop, idle}
use virtual_waiting_room.Possession.{SecretDigest}
use virtual_waiting_room.Assembly.{Shard, assign, shard_count, from_parts}
use virtual_waiting_room.Items.Counters.{PositionItem}
use virtual_waiting_room.Items.Resolve.{open_outputs}
use virtual_waiting_room.Tables.{Tables}
use virtual_waiting_room.AssignPosition.{
  JoinMessage, BatchRecord, classify_record, classify_all, Accepted, dedupe, unregistered,
  stragglers,
}
use virtual_waiting_room.AssignPosition.Batch.{
  process_batch, process_prequeue_batch, registered_ids_or_unknown, write_prequeue,
  fixup_stragglers, write_stragglers,
}
use virtual_waiting_room.AssignPosition.Closed.{IsClosed, process_batch_closed}
use virtual_waiting_room.OpenEvent.{open_guard, open_update, write_open}
use virtual_waiting_room.OpenEvent.Once.{values_from}
use virtual_waiting_room.AssignPosition.Live.{
  claim_prequeue_block, first_local_index, add_at, put_prequeue, has_registration, registered,
  claim_block, put_position, has_position, dynamo_store,
}
use virtual_waiting_room.AssignPosition.Live.Line.{HasLine}
use virtual_waiting_room.AssignPosition.Live.Shared.{
  Shared, shared_store, AllKeep, IsLineTo, write_open-IsLineTo,
}
use virtual_waiting_room.AssignPosition.Live.Shared.Batch.{process_batch_shared-HasLine}
use virtual_waiting_room.Tests.{sample_seed, sample_counts, fresh_counters, fresh_tables}

abbrev sample_digest : SecretDigest
sample_digest = record { text = "digest" }

abbrev from_str : String → Option JoinMessage
from_str body = some (record { request_id = body; event_id = "event"; h = sample_digest })

abbrev joins : List BatchRecord
joins =
    record { message_id = "m1"; body = "6f1f9c0e-8c1e-4a53-9d55-0a3b6b1f2c4d" }
    ∷ record { message_id = "m2"; body = "not a uuid" }
    ∷ record { message_id = "m3"; body = "00000000-0000-0000-0000-000000000000" }
    ∷ []

abbrev shard : Shard
shard = record { index = 2 }

abbrev m1 : Accepted
m1 = (
  "m1",
  record {
    request_id = "6f1f9c0e-8c1e-4a53-9d55-0a3b6b1f2c4d";
    event_id = "event";
    h = sample_digest;
  },
)

abbrev m3 : Accepted
m3 = (
  "m3",
  record {
    request_id = "00000000-0000-0000-0000-000000000000";
    event_id = "event";
    h = sample_digest;
  },
)

joins_accepted : (classify_all from_str "event" joins).0 ≡ m1 ∷ m3 ∷ []
unfolding classify_all classify_record is_uuid_shape uuid_loop
joins_accepted = refl

-- Two visitors register on shard 2 as the event opens: the open, which has read the counts before,
-- writes between their block of registrations and the fix-up, which then places both in the line.
abbrev opens : Tables → Tables
opens t = (write_open (values_from sample_counts sample_seed) t).1

abbrev stay : Tables → Tables
stay t = t

abbrev overtaken : Shared
overtaken = record { tables = fresh_tables; others = stay ∷ stay ∷ opens ∷ [] }

overtaken-AllKeep : AllKeep 5 overtaken.others
overtaken-AllKeep = (
  (λ t h. h),
  ((λ t h. h), (write_open-IsLineTo 5 (values_from sample_counts sample_seed) (omega arith), tt)),
)

fresh_tables-IsLineTo : IsLineTo 5 fresh_tables
fresh_tables-IsLineTo = record { line = tt; low = omega arith; clear = λ c e fresh. refl }

process_batch_shared-HasLine_example :
    HasLine (process_batch (shared_store 100) from_str "event" shard joins overtaken).1.tables
process_batch_shared-HasLine_example =
    process_batch_shared-HasLine 100 5 from_str "event" shard joins overtaken (omega arith)
      fresh_tables-IsLineTo overtaken-AllKeep

-- The fix-up has written two places, past the five of the cohort.
overtaken_places :
    map
      (λ (row : PositionItem). row.queue_position)
      (process_batch (shared_store 100) from_str "event" shard joins overtaken).1.tables.positions
    ≡ 7 ∷ 6 ∷ []
unfolding process_batch process_prequeue_batch registered_ids_or_unknown write_prequeue
    fixup_stragglers write_stragglers claim_prequeue_block first_local_index add_at put_prequeue
    has_registration registered claim_block put_position has_position classify_all classify_record
    is_uuid_shape uuid_loop dedupe unregistered stragglers open_outputs open_guard open_update
    write_open assign shard_count from_parts
overtaken_places = refl

abbrev idle_tables : Tables
idle_tables = record fresh_tables { counters = some (record fresh_counters { phase = idle }) }

idle-IsClosed : IsClosed (ok (some (record fresh_counters { phase = idle })))
unfolding open_outputs
idle-IsClosed = (refl, λ e. cc)

process_batch_closed_example :
    process_batch (dynamo_store 100) from_str "event" shard joins idle_tables
    ≡ ("m1" ∷ "m3" ∷ [], idle_tables)
process_batch_closed_example =
    process_batch_closed (dynamo_store 100) from_str "event" shard joins idle_tables idle_tables
      (ok (some (record fresh_counters { phase = idle }))) m1 (m3 ∷ []) joins_accepted refl
      idle-IsClosed
