-- ===== src/AssignPosition/Batch.antt =====
-- `process_batch` of crates/assign_position/src/lib.rs, with its three paths: the live line, the
-- pre-queue, and the fix-up of registrations that an open overtook.
use Prim.Native.String.{String}
use virtual_waiting_room.Prelude.{ℕ, ◌+◌, Option, none, some, List, [], ◌∷◌, map, length}
use virtual_waiting_room.Prelude.Result.{Result, ok, err}
use virtual_waiting_room.Ids.{Phase, idle, pre_queue, active, post_event, maintenance}
use virtual_waiting_room.Assembly.{Shard}
use virtual_waiting_room.Items.Attributes.{and_then}
use virtual_waiting_room.Items.Counters.{Counters}
use virtual_waiting_room.Items.Resolve.{OpenOutputs, open_outputs}
use virtual_waiting_room.AssignPosition.{
  JoinMessage, BatchRecord, PreQueueWrite, WriteOutcome, written, duplicate, StoreError, Store,
  Accepted, classify_all, message_ids, dedupe, unregistered, stragglers, block_start,
  position_write, straggler_write, prequeue_write,
}

module _ {S : Type 0} (store : Store S) where
  abbrev pub on_error : String → Result WriteOutcome StoreError → List String → List String
  on_error id (ok out) failures = failures
  on_error id (err e) failures = id ∷ failures

  -- The write loop of the live path, from one offset on: the failures and the world.
  unfoldable pub write_positions : ℕ → ℕ → List Accepted → S → List String × S
  write_positions start offset [] world = ([], world)
  write_positions start offset (v ∷ valid) world =
      let (result, world') = store.put_position (position_write start offset v) world in
      let (failures, world'') = write_positions start (offset + 1) valid world' in
      (on_error v.0 result failures, world'')

  abbrev pub after_block : List Accepted → Result ℕ StoreError × S → List String × S
  after_block valid (err e, world) = (message_ids valid, world)
  after_block valid (ok end, world) = write_positions (block_start end (length valid)) 0 valid world

  unfoldable pub process_live_batch : String → List Accepted → S → List String × S
  process_live_batch event_id valid world =
      after_block valid (store.claim_block event_id (length valid) world)

  -- The write loop of the fix-up; its failures are logged and no more.
  unfoldable pub write_stragglers : ℕ → ℕ → List PreQueueWrite → S → S
  write_stragglers start offset [] world = world
  write_stragglers start offset (w ∷ writes) world =
      write_stragglers start (offset + 1) writes
        (store.put_position (straggler_write start offset w) world).1

  abbrev pub after_straggler_block : List PreQueueWrite → Result ℕ StoreError × S → S
  after_straggler_block late (err e, world) = world
  after_straggler_block late (ok end, world) =
      write_stragglers (block_start end (length late)) 0 late world

  abbrev pub claim_late : String → List PreQueueWrite → S → S
  claim_late event_id [] world = world
  claim_late event_id (w ∷ late) world =
      after_straggler_block (w ∷ late) (store.claim_block event_id (length (w ∷ late)) world)

  abbrev pub after_open : String → List PreQueueWrite → Option OpenOutputs → S → S
  after_open event_id writes none world = world
  after_open event_id writes (some opened) world =
      claim_late event_id (stragglers opened writes) world

  abbrev pub after_reload :
      String → List PreQueueWrite → Result (Option Counters) StoreError × S → S
  after_reload event_id writes (err e, world) = world
  after_reload event_id writes (ok counters, world) =
      after_open event_id writes (and_then counters open_outputs) world

  unfoldable pub fixup_stragglers : String → List PreQueueWrite → S → S
  fixup_stragglers event_id writes world =
      after_reload event_id writes (store.load_counters event_id world)

  abbrev pub kept_write :
      Result WriteOutcome StoreError → PreQueueWrite → List PreQueueWrite → List PreQueueWrite
  kept_write (ok written) write writes = write ∷ writes
  kept_write (ok duplicate) write writes = writes
  kept_write (err e) write writes = writes

  -- The write loop of the pre-queue path: the failures, the rows that were written, and the world.
  unfoldable pub write_prequeue :
      Shard → ℕ → ℕ → List Accepted → S → List String × List PreQueueWrite × S
  write_prequeue shard start offset [] world = ([], [], world)
  write_prequeue shard start offset (v ∷ group) world =
      let write = prequeue_write shard start offset v in
      let (result, world') = store.put_prequeue write world in
      let (failures, writes, world'') = write_prequeue shard start (offset + 1) group world' in
      (on_error v.0 result failures, kept_write result write writes, world'')

  abbrev pub after_writes : String → List String × List PreQueueWrite × S → List String × S
  after_writes event_id (failures, [], world) = (failures, world)
  after_writes event_id (failures, w ∷ writes, world) =
      (failures, fixup_stragglers event_id (w ∷ writes) world)

  abbrev pub after_claim :
      String → Shard → List Accepted → Result ℕ StoreError × S → List String × S
  after_claim event_id shard group (err e, world) = (message_ids group, world)
  after_claim event_id shard group (ok start, world) =
      after_writes event_id (write_prequeue shard start 0 group world)

  abbrev pub with_group : String → Shard → List Accepted → S → List String × S
  with_group event_id shard [] world = ([], world)
  with_group event_id shard (v ∷ group) world =
      after_claim event_id shard (v ∷ group)
        (store.claim_prequeue_block event_id shard (length (v ∷ group)) world)

  abbrev pub known_ids : Result (List String) StoreError → List String
  known_ids (ok ids) = ids
  known_ids (err e) = []

  unfoldable pub registered_ids_or_unknown : List String → S → List String × S
  registered_ids_or_unknown ids world =
      let (result, world') = store.registered_ids ids world in (known_ids result, world')

  unfoldable pub process_prequeue_batch : String → Shard → List Accepted → S → List String × S
  process_prequeue_batch event_id shard valid world =
      let deduped = dedupe [] valid in
      let (registered, world') =
        registered_ids_or_unknown (map (λ v. v.1.request_id) deduped) world in
      with_group event_id shard (unregistered registered deduped) world'

  abbrev pub by_phase : String → Shard → List Accepted → Phase → S → List String × S
  by_phase event_id shard valid pre_queue world = process_prequeue_batch event_id shard valid world
  by_phase event_id shard valid idle world = (message_ids valid, world)
  by_phase event_id shard valid active world = (message_ids valid, world)
  by_phase event_id shard valid post_event world = (message_ids valid, world)
  by_phase event_id shard valid maintenance world = (message_ids valid, world)

  abbrev pub by_open :
      String → Shard → List Accepted → Phase → Option OpenOutputs → S → List String × S
  by_open event_id shard valid phase (some opened) world = process_live_batch event_id valid world
  by_open event_id shard valid phase none world = by_phase event_id shard valid phase world

  abbrev pub after_load :
      String → Shard → List Accepted → Result (Option Counters) StoreError × S → List String × S
  after_load event_id shard valid (err e, world) = (message_ids valid, world)
  after_load event_id shard valid (ok none, world) = (message_ids valid, world)
  after_load event_id shard valid (ok (some c), world) =
      by_open event_id shard valid c.phase (open_outputs c) world

  abbrev pub process_valid : String → Shard → List Accepted → S → List String × S
  process_valid event_id shard [] world = ([], world)
  process_valid event_id shard (v ∷ valid) world =
      after_load event_id shard (v ∷ valid) (store.load_counters event_id world)

  -- The failures are those of `BatchOutcome`.
  unfoldable pub process_batch :
      (String → Option JoinMessage) → String → Shard → List BatchRecord → S → List String × S
  process_batch from_str event_id shard records world =
      process_valid event_id shard (classify_all from_str event_id records).0 world
