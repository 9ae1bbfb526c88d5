-- ===== src/AssignPosition/Closed.antt =====
-- `process_batch` of crates/assign_position/src/lib.rs on an event that can take no position.
use Prim.Native.String.{String}
use virtual_waiting_room.Prelude.{◌≡◌, ◌≢◌, refl, Option, none, some, List, ◌∷◌}
use virtual_waiting_room.Prelude.Result.{Result, ok, err}
use virtual_waiting_room.Ids.{Phase, idle, pre_queue, active, post_event, maintenance}
use virtual_waiting_room.Assembly.{Shard}
use virtual_waiting_room.Items.Counters.{Counters}
use virtual_waiting_room.Items.Resolve.{open_outputs}
use virtual_waiting_room.AssignPosition.{
  JoinMessage, BatchRecord, StoreError, Store, classify_all, Accepted, message_ids,
}
use virtual_waiting_room.AssignPosition.Batch.{by_phase, after_load, process_batch}

-- The answers to the first read after which a batch can take no position: none, no item, or an
-- event that is neither open nor in its pre-queue.
abbrev pub IsClosed : Result (Option Counters) StoreError → Type 0
IsClosed (err e) = Unit {0}
IsClosed (ok none) = Unit {0}
IsClosed (ok (some c)) = (open_outputs c ≡ none) × (c.phase ≢ pre_queue)

after_load_closed :
    {S : Type 0} (store : Store S) (event_id : String) (shard : Shard) (valid : List Accepted)
    (r : Result (Option Counters) StoreError) (world : S)
    → IsClosed r
    → after_load store event_id shard valid (r, world) ≡ (message_ids valid, world)
after_load_closed store event_id shard valid (err e) world h = refl
after_load_closed store event_id shard valid (ok none) world h = refl
after_load_closed store event_id shard valid (ok (some c)) world (shut, not_pre) =
    rw shut (phased c.phase refl)
  where
    phased :
        (p : Phase)
        → c.phase ≡ p
        → by_phase store event_id shard valid p world ≡ (message_ids valid, world)
    phased pre_queue e = absurd (not_pre e)
    phased idle e = refl
    phased active e = refl
    phased post_event e = refl
    phased maintenance e = refl

-- While the counters cannot be read, or there is no event item, or the event is not open and not in
-- its pre-queue, a batch with an accepted record returns exactly the accepted messages, and the
-- world is as the read left it: nothing is claimed and nothing is written.
pub process_batch_closed :
    {S : Type 0} (store : Store S) (from_str : String → Option JoinMessage) (event_id : String)
    (shard : Shard) (records : List BatchRecord) (world world' : S)
    (r : Result (Option Counters) StoreError) (v : Accepted) (valid : List Accepted)
    → (classify_all from_str event_id records).0 ≡ v ∷ valid
    → store.load_counters event_id world ≡ (r, world')
    → IsClosed r
    → process_batch store from_str event_id shard records world ≡ (message_ids (v ∷ valid), world')
unfolding process_batch
process_batch_closed store from_str event_id shard records world world' r v valid e el h =
    rw (e, el) (after_load_closed store event_id shard (v ∷ valid) r world' h)
