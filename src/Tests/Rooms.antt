-- ===== src/Tests/Rooms.antt =====
-- Runs of the Lambdas beside one another: two visitors register, the event opens, a third joins
-- live, and one of them asks for a session. A join's body is its request id.
use Prim.Native.String.{String}
use virtual_waiting_room.Prelude.{ap, ◌≡◌, refl, Option, none, some, List, [], ◌∷◌, arith}
use virtual_waiting_room.Prelude.Result.{ok}
use virtual_waiting_room.Ids.{is_uuid_shape, uuid_loop}
use virtual_waiting_room.Permutation.{
  leading_zeros, half_width, cycle_walk, round_function, enc_rounds, enc, prp,
}
use virtual_waiting_room.Assembly.{Shard, assign, shard_count, from_parts}
use virtual_waiting_room.Items.Counters.{Counters, PositionItem, issued}
use virtual_waiting_room.Items.Resolve.{open_outputs, resolve_prequeue}
use virtual_waiting_room.Tables.{Tables}
use virtual_waiting_room.GenerateToken.Admit.{Minting, admit}
use virtual_waiting_room.GenerateToken.Decide.{resolve_position}
use virtual_waiting_room.GenerateToken.Live.{
  dynamo_store as admission_store, find_prequeue, find_position,
}
use virtual_waiting_room.AssignPosition.{
  JoinMessage, BatchRecord, classify_all, classify_record, dedupe, unregistered,
}
use virtual_waiting_room.AssignPosition.Batch.{
  process_batch, process_prequeue_batch, registered_ids_or_unknown, write_prequeue,
  fixup_stragglers, process_live_batch, write_positions,
}
use virtual_waiting_room.AssignPosition.Live.{
  dynamo_store as join_store, registered, claim_prequeue_block, add_at, first_local_index,
  put_prequeue, has_registration, claim_block, put_position, has_position,
}
use virtual_waiting_room.OpenEvent.{open_update}
use virtual_waiting_room.OpenEvent.Once.{values_from, open_event_opens}
use virtual_waiting_room.Room.{IsFresh, Reach, here, next, joined, opened, asked, held_by}
use virtual_waiting_room.Room.Places.{held_by-distinct}
use virtual_waiting_room.Room.Kept.{HasPlace, held_by_for_good}
use virtual_waiting_room.Tests.{sample_hmac, sample_seed, fresh_counters, fresh_tables}

abbrev plain : String → String
plain text = text

abbrev from_str : String → Option JoinMessage
from_str body =
    some (record { request_id = body; event_id = "event"; h = record { text = "digest" } })

abbrev empty_tables : Tables
empty_tables = record fresh_tables {
  shard_counts = 0 ∷ 0 ∷ 0 ∷ 0 ∷ 0 ∷ 0 ∷ 0 ∷ 0 ∷ 0 ∷ 0 ∷ [];
  prequeue = [];
}

empty_tables-IsFresh : IsFresh empty_tables
empty_tables-IsFresh = record {
  ten = refl;
  unopened = refl;
  no_prequeue = refl;
  no_positions = refl;
}

abbrev ann : String
ann = "6f1f9c0e-8c1e-4a53-9d55-0a3b6b1f2c4d"

abbrev bob : String
bob = "00000000-0000-0000-0000-000000000000"

abbrev cat : String
cat = "00000000-0000-0000-0000-00000000000c"

abbrev early : List BatchRecord
early = record { message_id = "m1"; body = ann } ∷ record { message_id = "m2"; body = cat } ∷ []

abbrev late : List BatchRecord
late = record { message_id = "m3"; body = bob } ∷ []

abbrev shard : Shard
shard = record { index = 2 }

-- After the batch before the open.
abbrev t1 : Tables
t1 = record empty_tables {
  shard_counts = 0 ∷ 0 ∷ 2 ∷ 0 ∷ 0 ∷ 0 ∷ 0 ∷ 0 ∷ 0 ∷ 0 ∷ [];
  prequeue =
      record { r = cat; s = 2; l = 1; t = 100; h = some (record { text = "digest" }) }
      ∷ record { r = ann; s = 2; l = 0; t = 100; h = some (record { text = "digest" }) }
      ∷ [];
}

early_lem : (process_batch (join_store 100) from_str "event" shard early empty_tables).1 ≡ t1
unfolding process_batch classify_all classify_record is_uuid_shape uuid_loop open_outputs
    process_prequeue_batch registered_ids_or_unknown registered dedupe unregistered
    claim_prequeue_block add_at first_local_index write_prequeue put_prequeue has_registration
    fixup_stragglers
early_lem = refl

abbrev open_counters : Counters
open_counters = open_update (values_from t1.shard_counts sample_seed) fresh_counters

abbrev t2 : Tables
t2 = record t1 { counters = some open_counters }

abbrev bob_row : PositionItem
bob_row = record {
  request_id = bob;
  queue_position = 3;
  entry_time = 300;
  status = issued;
  h = some (record { text = "digest" });
  ttl = 86700;
}

-- After the batch that comes later.
abbrev t3 : Tables
t3 = record t2 {
  counters = some (record open_counters { queue_counter = 3 });
  positions = bob_row ∷ [];
}

late_lem : (process_batch (join_store 300) from_str "event" shard late t2).1 ≡ t3
unfolding process_batch classify_all classify_record is_uuid_shape uuid_loop open_outputs
    process_live_batch claim_block write_positions put_position has_position open_update
late_lem = refl

reach1 : Reach sample_hmac plain empty_tables t1
reach1 = rw (← early_lem) (
    next here (
      joined 100 from_str "event" shard early empty_tables (omega arith) (omega arith)
        (omega arith)))

reach2 : Reach sample_hmac plain empty_tables t2
reach2 =
    rw
      (← ap (λ r. r.1)
        (open_event_opens t1 fresh_counters sample_seed refl refl (omega arith) refl refl).0)
      (next reach1 (opened sample_seed t1))

reach3 : Reach sample_hmac plain empty_tables t3
unfolding open_update
reach3 = rw (← late_lem) (
    next reach2
      (joined 300 from_str "event" shard late t2 (omega arith) (omega arith) (omega arith)))

ann_first : held_by sample_hmac ann t2 open_counters ≡ ok 0
unfolding resolve_position find_prequeue find_position resolve_prequeue open_outputs assign
    shard_count from_parts leading_zeros half_width cycle_walk round_function enc_rounds enc prp
    open_update
ann_first = refl

held_by-distinct_example : ann ≡ ann
held_by-distinct_example =
    held_by-distinct sample_hmac plain empty_tables t2 open_counters ann ann 0 empty_tables-IsFresh
      reach2 refl ann_first ann_first

bob_third : HasPlace bob 3 t3.positions
unfolding find_position
bob_third = (bob_row, refl, refl)

abbrev minting : Minting
minting = record {
  event_id = "event";
  session_ttl_secs = 600;
  ip_tag = λ ip. some ip;
  sign = λ session. some session.request_id;
}

-- After a request of Ann for a session.
abbrev t4 : Tables
t4 =
    (admit sample_hmac plain admission_store minting ann (record { text = "secret" }) none 400
      (record { tables = t3; entropy = [] })).1.tables

held_by_for_good_example :
    HasPlace bob 3 t4.positions × ((c : Counters) → held_by sample_hmac bob t4 c ≡ ok 3)
held_by_for_good_example =
    held_by_for_good sample_hmac plain empty_tables t3 t4 bob 3 empty_tables-IsFresh reach3
      bob_third (next here (asked minting ann (record { text = "secret" }) none 400 [] t3))
