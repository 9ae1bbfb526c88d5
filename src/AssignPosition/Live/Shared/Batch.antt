-- ===== src/AssignPosition/Live/Shared/Batch.antt =====
-- `process_batch` of crates/assign_position/src/lib.rs over tables that others change while it runs.
use Prim.Native.String.{String}
use virtual_waiting_room.Prelude.{
  ℕ, suc, ◌+◌, ◌≤◌, Option, none, some, List, [], ◌∷◌, map, length, u64_max, arith,
}
use virtual_waiting_room.Prelude.Result.{Result, ok, err}
use virtual_waiting_room.Ids.{Phase, idle, pre_queue, active, post_event, maintenance}
use virtual_waiting_room.Assembly.{Shard}
use virtual_waiting_room.Items.Attributes.{and_then}
use virtual_waiting_room.Items.Counters.{Counters}
use virtual_waiting_room.Items.Resolve.{OpenOutputs, open_outputs}
use virtual_waiting_room.AssignPosition.{
  JoinMessage, BatchRecord, StoreError, WriteOutcome, written, duplicate, PreQueueWrite, Accepted,
  classify_all, dedupe, unregistered, stragglers, prequeue_write,
}
use virtual_waiting_room.AssignPosition.Batch.{
  kept_write, after_open, fixup_stragglers, write_prequeue, after_writes, after_claim, with_group,
  registered_ids_or_unknown, process_prequeue_batch, by_phase, by_open, after_load, process_valid,
  process_batch,
}
use virtual_waiting_room.AssignPosition.Live.{put_prequeue, claim_prequeue_block, registered}
use virtual_waiting_room.AssignPosition.Live.Line.{HasLine, length-stragglers}
use virtual_waiting_room.AssignPosition.Live.Batch.{
  put_prequeue-IsSameLine, claim_prequeue_block-IsSameLine, length-classify_all, length-dedupe,
  length-unregistered,
}
use virtual_waiting_room.AssignPosition.Live.Shared.{
  Shared, turn, shared_store, IsLineTo, AllKeep, IsKept, turn-IsKept, same-IsKept,
}
use virtual_waiting_room.AssignPosition.Live.Shared.Line.{live-HasLine, claim_late-shared}

module _ (now cap : ℕ) where
  fixup_stragglers-shared :
      (id : String) (writes : List PreQueueWrite) (w : Shared)
      → cap + length writes ≤ u64_max
      → IsKept cap w
      → HasLine (fixup_stragglers (shared_store now) id writes w).tables
  unfolding fixup_stragglers
  fixup_stragglers-shared id writes w fits kept =
      reloaded (and_then (turn w).tables.counters open_outputs)
    where
      reloaded :
          (o : Option OpenOutputs)
          → HasLine (after_open (shared_store now) id writes o (turn w)).tables
      reloaded none = (turn-IsKept cap w kept).0.line
      reloaded (some opened) =
          claim_late-shared now cap id (stragglers opened writes) (turn w)
            (omega (arith, length-stragglers opened writes)) (turn-IsKept cap w kept)

  write_prequeue-shared :
      (shard : Shard) (start offset : ℕ) (group : List Accepted) (w : Shared)
      → IsKept cap w
      → let out = write_prequeue (shared_store now) shard start offset group w in
        IsKept cap out.2 × (length out.1 ≤ length group)
  unfolding write_prequeue
  write_prequeue-shared shard start offset [] w kept = (kept, omega arith)
  write_prequeue-shared shard start offset (v ∷ group) w kept =
      let p = prequeue_write shard start offset v in
      let w1 = turn w in
      let (result, t) = put_prequeue now p w1.tables in
      let one =
        same-IsKept cap w1 t (put_prequeue-IsSameLine now p w1.tables) (turn-IsKept cap w kept) in
      let (rest, fewer) =
        write_prequeue-shared shard start (offset + 1) group (record w1 { tables = t }) one in
      (rest, omega (arith, fewer, kept_length result p _))
    where
      kept_length :
          (r : Result WriteOutcome StoreError) (p : PreQueueWrite) (writes : List PreQueueWrite)
          → length (kept_write (shared_store now) r p writes) ≤ suc (length writes)
      kept_length (ok written) p writes = omega arith
      kept_length (ok duplicate) p writes = omega arith
      kept_length (err e) p writes = omega arith

  after_writes-shared :
      (id : String) (out : List String × List PreQueueWrite × Shared)
      → cap + length out.1 ≤ u64_max
      → IsKept cap out.2
      → HasLine (after_writes (shared_store now) id out).1.tables
  after_writes-shared id (failures, [], w) fits kept = kept.0.line
  after_writes-shared id (failures, p ∷ writes, w) fits kept =
      fixup_stragglers-shared id (p ∷ writes) w fits kept

  with_group-shared :
      (id : String) (shard : Shard) (group : List Accepted) (w : Shared)
      → cap + length group ≤ u64_max
      → IsKept cap w
      → HasLine (with_group (shared_store now) id shard group w).1.tables
  with_group-shared id shard [] w fits kept = kept.0.line
  with_group-shared id shard (v ∷ group) w fits kept =
      let n = suc (length group) in
      let w1 = turn w in
      let (r, t) = claim_prequeue_block id shard n w1.tables in
      claimed r (record w1 { tables = t })
        (same-IsKept cap w1 t (claim_prequeue_block-IsSameLine id shard n w1.tables)
          (turn-IsKept cap w kept))
    where
      claimed :
          (r : Result ℕ StoreError) (w' : Shared)
          → IsKept cap w'
          → HasLine (after_claim (shared_store now) id shard (v ∷ group) (r, w')).1.tables
      claimed (err e) w' kept' = kept'.0.line
      claimed (ok start) w' kept' =
          let out = write_prequeue (shared_store now) shard start 0 (v ∷ group) w' in
          let (after, fewer) = write_prequeue-shared shard start 0 (v ∷ group) w' kept' in
          after_writes-shared id out (omega (arith, fewer)) after

  process_prequeue_batch-shared :
      (id : String) (shard : Shard) (valid : List Accepted) (w : Shared)
      → cap + length valid ≤ u64_max
      → IsKept cap w
      → HasLine (process_prequeue_batch (shared_store now) id shard valid w).1.tables
  unfolding process_prequeue_batch registered_ids_or_unknown
  process_prequeue_batch-shared id shard valid w fits kept =
      let once = dedupe [] valid in
      let known = registered (turn w).tables.prequeue (map (λ v. v.1.request_id) once) in
      with_group-shared id shard (unregistered known once) (turn w)
        (omega (arith, length-unregistered known once, length-dedupe [] valid))
        (turn-IsKept cap w kept)

  after_load-shared :
      (id : String) (shard : Shard) (valid : List Accepted) (w : Shared) (o : Option Counters)
      → 1 ≤ length valid
      → cap + length valid ≤ u64_max
      → IsKept cap w
      → HasLine (after_load (shared_store now) id shard valid (ok o, w)).1.tables
  after_load-shared id shard valid w none some_valid fits kept = kept.0.line
  after_load-shared id shard valid w (some c) some_valid fits kept = opened (open_outputs c)
    where
      phased : (p : Phase) → HasLine (by_phase (shared_store now) id shard valid p w).1.tables
      phased pre_queue = process_prequeue_batch-shared id shard valid w fits kept
      phased idle = kept.0.line
      phased active = kept.0.line
      phased post_event = kept.0.line
      phased maintenance = kept.0.line

      opened :
          (out : Option OpenOutputs)
          → HasLine (by_open (shared_store now) id shard valid c.phase out w).1.tables
      opened (some out) = live-HasLine now cap id valid w some_valid fits kept
      opened none = phased c.phase

-- A batch keeps the line on any path, the fix-up of registrations that an open has overtaken
-- included: no two rows of `Positions` share a place, and no place is past the counter. Others, the
-- open among them, may change the tables before each request of the batch but the writes of a block
-- of places that it has claimed: in any way that keeps the line, keeps it empty before the open, and
-- keeps the counter at `cap` or less, which leaves room for the batch.
pub process_batch_shared-HasLine :
    (now cap : ℕ) (from_str : String → Option JoinMessage) (event_id : String) (shard : Shard)
    (records : List BatchRecord) (w : Shared)
    → cap + length records ≤ u64_max
    → IsLineTo cap w.tables
    → AllKeep cap w.others
    → HasLine (process_batch (shared_store now) from_str event_id shard records w).1.tables
unfolding process_batch
process_batch_shared-HasLine now cap from_str event_id shard records w fits line all =
    sized (classify_all from_str event_id records).0 (length-classify_all from_str event_id records)
  where
    sized :
        (valid : List Accepted)
        → length valid ≤ length records
        → HasLine (process_valid (shared_store now) event_id shard valid w).1.tables
    sized [] le = line.line
    sized (v ∷ valid) le =
        after_load-shared now cap event_id shard (v ∷ valid) (turn w) (turn w).tables.counters
          (omega arith) (omega arith) (turn-IsKept cap w (line, all))
