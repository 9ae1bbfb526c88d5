-- ===== src/AssignPosition/Live/Register/Batch.antt =====
-- `process_batch` over the live store of crates/assign_position/src/dynamo.rs, and the rows of
-- `PreQueue`.
use Prim.Native.String.{String}
use virtual_waiting_room.Prelude.{
  ℕ, zero, suc, ◌+◌, ◌≤◌, ◌<◌, ◌≡◌, refl, ◌∙◌, Option, none, some, List, [], ◌∷◌, map, length,
  get_or, u64_max, arith,
}
use virtual_waiting_room.Prelude.Result.{Result, ok, err}
use virtual_waiting_room.Ids.{Phase, idle, pre_queue, active, post_event, maintenance}
use virtual_waiting_room.Assembly.{Shard}
use virtual_waiting_room.Items.Attributes.{and_then}
use virtual_waiting_room.Items.Counters.{Counters}
use virtual_waiting_room.Items.Resolve.{OpenOutputs, open_outputs}
use virtual_waiting_room.Tables.{Tables}
use virtual_waiting_room.AssignPosition.{
  JoinMessage, BatchRecord, StoreError, PositionWrite, PreQueueWrite, classify_all, Accepted,
  position_write, straggler_write, dedupe, unregistered, stragglers, block_start,
}
use virtual_waiting_room.AssignPosition.Batch.{
  write_positions, process_live_batch, write_stragglers, after_block, after_straggler_block,
  claim_late, after_open, fixup_stragglers, write_prequeue, after_writes, with_group,
  process_prequeue_batch, registered_ids_or_unknown, by_phase, by_open, after_load, process_valid,
  process_batch,
}
use virtual_waiting_room.AssignPosition.Live.{
  add_at, claim_block, put_position, first_local_index, claim_prequeue_block, registered,
  dynamo_store,
}
use virtual_waiting_room.AssignPosition.Live.Batch.{
  length-classify_all, length-dedupe, length-unregistered,
}
use virtual_waiting_room.AssignPosition.Live.Register.{
  IsRegister, get_or-add_at, IsRegister-raise, write_prequeue-IsRegister,
}

-- The register of the tables, its counts and rows.
abbrev pub HasRegister : Tables → Type 0
HasRegister t = IsRegister t.shard_counts t.prequeue

abbrev IsSameRegister : Tables → Tables → Type 0
IsSameRegister t t' = (t'.shard_counts ≡ t.shard_counts) × (t'.prequeue ≡ t.prequeue)

HasRegister-IsSameRegister : (t t' : Tables) → IsSameRegister t t' → HasRegister t → HasRegister t'
HasRegister-IsSameRegister t t' same reg = rw (same.0, same.1) reg

put_position-IsSameRegister :
    (now : ℕ) (w : PositionWrite) (t : Tables) → IsSameRegister t (put_position now w t).1
unfolding put_position
put_position-IsSameRegister now w t = (ground arith, ground arith)

write_positions-IsSameRegister :
    (now start offset : ℕ) (valid : List Accepted) (t : Tables)
    → IsSameRegister t (write_positions (dynamo_store now) start offset valid t).1
unfolding write_positions
write_positions-IsSameRegister now start offset [] t = (refl, refl)
write_positions-IsSameRegister now start offset (v ∷ valid) t =
    let w = position_write start offset v in
    let one = put_position-IsSameRegister now w t in
    let rest =
      write_positions-IsSameRegister now start (offset + 1) valid (put_position now w t).1 in
    (rest.0 ∙ one.0, rest.1 ∙ one.1)

write_stragglers-IsSameRegister :
    (now start offset : ℕ) (writes : List PreQueueWrite) (t : Tables)
    → IsSameRegister t (write_stragglers (dynamo_store now) start offset writes t)
unfolding write_stragglers
write_stragglers-IsSameRegister now start offset [] t = (refl, refl)
write_stragglers-IsSameRegister now start offset (w ∷ writes) t =
    let x = straggler_write start offset w in
    let one = put_position-IsSameRegister now x t in
    let rest =
      write_stragglers-IsSameRegister now start (offset + 1) writes (put_position now x t).1 in
    (rest.0 ∙ one.0, rest.1 ∙ one.1)

process_live_batch-IsSameRegister :
    (now : ℕ) (event_id : String) (valid : List Accepted) (t : Tables)
    → IsSameRegister t (process_live_batch (dynamo_store now) event_id valid t).1
unfolding process_live_batch claim_block
process_live_batch-IsSameRegister now event_id valid t =
    let out = claim_block event_id (length valid) t in claimed out.0 out.1 (refl, refl)
  where
    claimed :
        (r : Result ℕ StoreError) (t' : Tables)
        → IsSameRegister t t'
        → IsSameRegister t (after_block (dynamo_store now) valid (r, t')).1
    claimed (err e) t' same = same
    claimed (ok end) t' same =
        let more = write_positions-IsSameRegister now (block_start end (length valid)) 0 valid t' in
        (more.0 ∙ same.0, more.1 ∙ same.1)

fixup_stragglers-IsSameRegister :
    (now : ℕ) (event_id : String) (writes : List PreQueueWrite) (t : Tables)
    → IsSameRegister t (fixup_stragglers (dynamo_store now) event_id writes t)
unfolding fixup_stragglers claim_block
fixup_stragglers-IsSameRegister now event_id writes t = reloaded (and_then t.counters open_outputs)
  where
    claimed :
        (late : List PreQueueWrite) (r : Result ℕ StoreError) (t' : Tables)
        → IsSameRegister t t'
        → IsSameRegister t (after_straggler_block (dynamo_store now) late (r, t'))
    claimed late (err e) t' same = same
    claimed late (ok end) t' same =
        let more = write_stragglers-IsSameRegister now (block_start end (length late)) 0 late t' in
        (more.0 ∙ same.0, more.1 ∙ same.1)

    late_lem :
        (late : List PreQueueWrite)
        → IsSameRegister t (claim_late (dynamo_store now) event_id late t)
    late_lem [] = (refl, refl)
    late_lem (w ∷ late) =
        let out = claim_block event_id (length (w ∷ late)) t in
        claimed (w ∷ late) out.0 out.1 (refl, refl)

    reloaded :
        (o : Option OpenOutputs)
        → IsSameRegister t (after_open (dynamo_store now) event_id writes o t)
    reloaded none = (refl, refl)
    reloaded (some opened) = late_lem (stragglers opened writes)

get_or-add_at_zero : (xs : List ℕ) (i j : ℕ) → get_or xs j 0 ≤ get_or (add_at xs i 0) j 0
unfolding add_at
get_or-add_at_zero [] i j = omega arith
get_or-add_at_zero (x ∷ xs) zero zero = omega arith
get_or-add_at_zero (x ∷ xs) zero (suc j) = omega arith
get_or-add_at_zero (x ∷ xs) (suc i) zero = omega arith
get_or-add_at_zero (x ∷ xs) (suc i) (suc j) = get_or-add_at_zero xs i j

-- A block of a shard starts at the count before the claim.
claim_prequeue_block_lem :
    (event_id : String) (shard : Shard) (n : ℕ) (t : Tables)
    → shard.index < length t.shard_counts
    → get_or t.shard_counts shard.index 0 + n ≤ u64_max
    → (claim_prequeue_block event_id shard n t).0 ≡ ok (get_or t.shard_counts shard.index 0)
unfolding claim_prequeue_block first_local_index
claim_prequeue_block_lem event_id shard n t inside fits =
    rw (get_or-add_at t.shard_counts shard.index n inside) (ground arith)

after_writes-HasRegister :
    (now : ℕ) (event_id : String) (out : List String × List PreQueueWrite × Tables)
    → HasRegister out.2
    → HasRegister (after_writes (dynamo_store now) event_id out).1
after_writes-HasRegister now event_id (failures, [], t) reg = reg
after_writes-HasRegister now event_id (failures, w ∷ writes, t) reg =
    HasRegister-IsSameRegister t (fixup_stragglers (dynamo_store now) event_id (w ∷ writes) t)
      (fixup_stragglers-IsSameRegister now event_id (w ∷ writes) t) reg

module _ (now : ℕ) (event_id : String) (shard : Shard) (t : Tables)
    (inside : shard.index < length t.shard_counts) (reg : HasRegister t) where
  abbrev count : ℕ
  count = get_or t.shard_counts shard.index 0

  with_group-HasRegister :
      (group : List Accepted)
      → count + length group ≤ u64_max
      → HasRegister (with_group (dynamo_store now) event_id shard group t).1
  unfolding claim_prequeue_block
  with_group-HasRegister [] fits = reg
  with_group-HasRegister (v ∷ group) fits =
      let n = suc (length group) in
      let t' = (claim_prequeue_block event_id shard n t).1 in
      let out = write_prequeue (dynamo_store now) shard count 0 (v ∷ group) t' in
      let base : IsRegister (add_at t.shard_counts shard.index 0) t.prequeue =
        IsRegister-raise t.shard_counts (add_at t.shard_counts shard.index 0) t.prequeue
          (get_or-add_at_zero t.shard_counts shard.index) reg in
      let (rows, counts) =
        write_prequeue-IsRegister now t.shard_counts shard inside 0 (v ∷ group) t' (omega arith)
          base in
      let whole : 0 + length (v ∷ group) ≡ n = omega arith in
      let rows' = rw whole at rows in
      rw (claim_prequeue_block_lem event_id shard n t inside fits)
        (after_writes-HasRegister now event_id out (rw counts rows'))

  process_prequeue_batch-HasRegister :
      (valid : List Accepted)
      → count + length valid ≤ u64_max
      → HasRegister (process_prequeue_batch (dynamo_store now) event_id shard valid t).1
  unfolding process_prequeue_batch registered_ids_or_unknown
  process_prequeue_batch-HasRegister valid fits =
      let once = dedupe [] valid in
      let known = registered t.prequeue (map (λ v. v.1.request_id) once) in
      let le = length-unregistered known once in
      with_group-HasRegister (unregistered known once) (omega (arith, length-dedupe [] valid))

  after_load-HasRegister :
      (valid : List Accepted) (o : Option Counters)
      → count + length valid ≤ u64_max
      → HasRegister (after_load (dynamo_store now) event_id shard valid (ok o, t)).1
  after_load-HasRegister valid none fits = reg
  after_load-HasRegister valid (some c) fits = opened (open_outputs c)
    where
      phased : (p : Phase) → HasRegister (by_phase (dynamo_store now) event_id shard valid p t).1
      phased pre_queue = process_prequeue_batch-HasRegister valid fits
      phased idle = reg
      phased active = reg
      phased post_event = reg
      phased maintenance = reg

      opened :
          (out : Option OpenOutputs)
          → HasRegister (by_open (dynamo_store now) event_id shard valid c.phase out t).1
      opened (some out) =
          HasRegister-IsSameRegister t (process_live_batch (dynamo_store now) event_id valid t).1
            (process_live_batch-IsSameRegister now event_id valid t) reg
      opened none = phased c.phase

  -- A batch on any path keeps the register: each row of `PreQueue` has a request id of its own, and
  -- a pair of a shard and a local index of its own, below the shard's count. The batch's shard is
  -- in range and its count has room for the batch.
  pub process_batch-HasRegister :
      (from_str : String → Option JoinMessage) (records : List BatchRecord)
      → count + length records ≤ u64_max
      → HasRegister (process_batch (dynamo_store now) from_str event_id shard records t).1
  unfolding process_batch
  process_batch-HasRegister from_str records fits =
      sized (classify_all from_str event_id records).0
        (length-classify_all from_str event_id records)
    where
      sized :
          (valid : List Accepted)
          → length valid ≤ length records
          → HasRegister (process_valid (dynamo_store now) event_id shard valid t).1
      sized [] le = reg
      sized (v ∷ valid) le = after_load-HasRegister (v ∷ valid) t.counters (omega arith)
