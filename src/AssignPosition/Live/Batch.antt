-- ===== src/AssignPosition/Live/Batch.antt =====
-- `process_batch` over the live store of crates/assign_position/src/dynamo.rs, and the rows of
-- `Positions`.
use Prim.Native.String.{String}
use virtual_waiting_room.Prelude.{
  ℕ, suc, ◌+◌, ◌≤◌, ◌≡◌, refl, ◌∙◌, Option, none, some, List, [], ◌∷◌, map, length, u64_max, arith,
  Bool-cases, inl, inr,
}
use virtual_waiting_room.Prelude.Result.{Result, ok, err}
use virtual_waiting_room.Ids.{Phase, idle, pre_queue, active, post_event, maintenance}
use virtual_waiting_room.Assembly.{Shard}
use virtual_waiting_room.Items.Counters.{Counters}
use virtual_waiting_room.Items.Resolve.{OpenOutputs, open_outputs}
use virtual_waiting_room.Tables.{Tables}
use virtual_waiting_room.AssignPosition.{
  JoinMessage, BatchRecord, StoreError, WriteOutcome, written, duplicate, PreQueueWrite,
  RecordVerdict, accept, reject, classify_record, classify_all, sorted, Accepted, contains, dedupe,
  unregistered, prequeue_write,
}
use virtual_waiting_room.AssignPosition.Batch.{
  kept_write, write_prequeue, after_writes, after_claim, with_group, by_phase, by_open, after_load,
  process_prequeue_batch, registered_ids_or_unknown, process_valid, process_batch,
}
use virtual_waiting_room.AssignPosition.Live.{
  put_prequeue, claim_prequeue_block, dynamo_store, registered,
}
use virtual_waiting_room.AssignPosition.Live.Line.{
  line_end, HasLine, process_live_batch-HasLine, fixup_stragglers-HasLine,
}

pub length-classify_all :
    (from_str : String → Option JoinMessage) (event_id : String) (records : List BatchRecord)
    → length (classify_all from_str event_id records).0 ≤ length records
unfolding classify_all
length-classify_all from_str event_id [] = omega arith
length-classify_all from_str event_id (r ∷ records) =
    judged (classify_record from_str r.body event_id)
      (length-classify_all from_str event_id records)
  where
    judged :
        (v : RecordVerdict)
        → length (classify_all from_str event_id records).0 ≤ length records
        → length (sorted from_str r.message_id v (classify_all from_str event_id records)).0
          ≤ suc (length records)
    judged (accept msg) h = omega arith
    judged (reject why) h = omega arith

pub length-dedupe :
    (seen : List String) (valid : List Accepted) → length (dedupe seen valid) ≤ length valid
unfolding dedupe
length-dedupe seen [] = omega arith
length-dedupe seen (v ∷ valid) = elim (Bool-cases (contains seen v.1.request_id)) [
  | inl hit ↦ rw hit (omega (arith, length-dedupe seen valid))
  | inr miss ↦ rw miss (omega (arith, length-dedupe (v.1.request_id ∷ seen) valid))
]

pub length-unregistered :
    (known : List String) (valid : List Accepted) → length (unregistered known valid) ≤ length valid
unfolding unregistered
length-unregistered known [] = omega arith
length-unregistered known (v ∷ valid) = elim (Bool-cases (contains known v.1.request_id)) [
  | inl hit ↦ rw hit (omega (arith, length-unregistered known valid))
  | inr miss ↦ rw miss (omega (arith, length-unregistered known valid))
]

-- The tables of the live line are as they were.
abbrev pub IsSameLine : Tables → Tables → Type 0
IsSameLine t t' = (t'.counters ≡ t.counters) × (t'.positions ≡ t.positions)

pub put_prequeue-IsSameLine :
    (now : ℕ) (w : PreQueueWrite) (t : Tables) → IsSameLine t (put_prequeue now w t).1
unfolding put_prequeue
put_prequeue-IsSameLine now w t = (ground arith, ground arith)

pub length-kept_write :
    (now : ℕ) (r : Result WriteOutcome StoreError) (w : PreQueueWrite) (writes : List PreQueueWrite)
    → length (kept_write (dynamo_store now) r w writes) ≤ suc (length writes)
length-kept_write now (ok written) w writes = omega arith
length-kept_write now (ok duplicate) w writes = omega arith
length-kept_write now (err e) w writes = omega arith

-- What the write loop of the pre-queue path leaves: the live line, and no more rows written than
-- there were records.
write_prequeue-IsSameLine :
    (now : ℕ) (shard : Shard) (start offset : ℕ) (group : List Accepted) (t : Tables)
    → let out = write_prequeue (dynamo_store now) shard start offset group t in
      IsSameLine t out.2 × (length out.1 ≤ length group)
unfolding write_prequeue
write_prequeue-IsSameLine now shard start offset [] t = ((refl, refl), omega arith)
write_prequeue-IsSameLine now shard start offset (v ∷ group) t =
    let w = prequeue_write shard start offset v in
    let (result, t') = put_prequeue now w t in
    let (same, fewer) = write_prequeue-IsSameLine now shard start (offset + 1) group t' in
    let one = put_prequeue-IsSameLine now w t in
    (
      (same.0 ∙ one.0, same.1 ∙ one.1),
      omega (
        arith,
        length-kept_write now result w
            (write_prequeue (dynamo_store now) shard start (offset + 1) group t').1,
      ),
    )

pub HasLine-IsSameLine : (t t' : Tables) → IsSameLine t t' → HasLine t → HasLine t'
HasLine-IsSameLine t t' same line = rw (same.0, same.1) line

pub claim_prequeue_block-IsSameLine :
    (event_id : String) (shard : Shard) (n : ℕ) (t : Tables)
    → IsSameLine t (claim_prequeue_block event_id shard n t).1
unfolding claim_prequeue_block
claim_prequeue_block-IsSameLine event_id shard n t = (refl, refl)

after_writes-HasLine :
    (now : ℕ) (event_id : String) (out : List String × List PreQueueWrite × Tables)
    → line_end out.2 + length out.1 ≤ u64_max
    → HasLine out.2
    → HasLine (after_writes (dynamo_store now) event_id out).1
after_writes-HasLine now event_id (failures, [], t) fits line = line
after_writes-HasLine now event_id (failures, w ∷ writes, t) fits line =
    fixup_stragglers-HasLine now event_id (w ∷ writes) t fits line

after_claim-HasLine :
    (now : ℕ) (event_id : String) (shard : Shard) (group : List Accepted)
    (r : Result ℕ StoreError × Tables)
    → line_end r.1 + length group ≤ u64_max
    → HasLine r.1
    → HasLine (after_claim (dynamo_store now) event_id shard group r).1
after_claim-HasLine now event_id shard group (err e, t) fits line = line
after_claim-HasLine now event_id shard group (ok start, t) fits line =
    let out = write_prequeue (dynamo_store now) shard start 0 group t in
    let (same, fewer) = write_prequeue-IsSameLine now shard start 0 group t in
    after_writes-HasLine now event_id out (rw same.0 (omega arith))
      (HasLine-IsSameLine t out.2 same line)

with_group-HasLine :
    (now : ℕ) (event_id : String) (shard : Shard) (group : List Accepted) (t : Tables)
    → line_end t + length group ≤ u64_max
    → HasLine t
    → HasLine (with_group (dynamo_store now) event_id shard group t).1
with_group-HasLine now event_id shard [] t fits line = line
with_group-HasLine now event_id shard (v ∷ group) t fits line =
    let n = suc (length group) in
    let same = claim_prequeue_block-IsSameLine event_id shard n t in
    let out = claim_prequeue_block event_id shard n t in
    after_claim-HasLine now event_id shard (v ∷ group) out (rw same.0 fits)
      (HasLine-IsSameLine t out.1 same line)

process_prequeue_batch-HasLine :
    (now : ℕ) (event_id : String) (shard : Shard) (valid : List Accepted) (t : Tables)
    → line_end t + length valid ≤ u64_max
    → HasLine t
    → HasLine (process_prequeue_batch (dynamo_store now) event_id shard valid t).1
unfolding process_prequeue_batch registered_ids_or_unknown
process_prequeue_batch-HasLine now event_id shard valid t fits line =
    let once = dedupe [] valid in
    let known = registered t.prequeue (map (λ v. v.1.request_id) once) in
    let le = length-unregistered known once in
    with_group-HasLine now event_id shard (unregistered known once) t
      (omega (arith, length-dedupe [] valid)) line

after_load-HasLine :
    (now : ℕ) (event_id : String) (shard : Shard) (valid : List Accepted) (t : Tables)
    (o : Option Counters)
    → 1 ≤ length valid
    → line_end t + length valid ≤ u64_max
    → HasLine t
    → HasLine (after_load (dynamo_store now) event_id shard valid (ok o, t)).1
after_load-HasLine now event_id shard valid t none some_valid fits line = line
after_load-HasLine now event_id shard valid t (some c) some_valid fits line =
    opened (open_outputs c)
  where
    phased : (p : Phase) → HasLine (by_phase (dynamo_store now) event_id shard valid p t).1
    phased pre_queue = process_prequeue_batch-HasLine now event_id shard valid t fits line
    phased idle = line
    phased active = line
    phased post_event = line
    phased maintenance = line

    opened :
        (out : Option OpenOutputs)
        → HasLine (by_open (dynamo_store now) event_id shard valid c.phase out t).1
    opened (some out) = process_live_batch-HasLine now event_id valid t some_valid fits line
    opened none = phased c.phase

-- A batch over tables that nobody else changes keeps the line: no two rows of `Positions` share a
-- place, and no place is past the counter. The counter has room for the batch.
pub process_batch-HasLine :
    (now : ℕ) (from_str : String → Option JoinMessage) (event_id : String) (shard : Shard)
    (records : List BatchRecord) (t : Tables)
    → line_end t + length records ≤ u64_max
    → HasLine t
    → HasLine (process_batch (dynamo_store now) from_str event_id shard records t).1
unfolding process_batch
process_batch-HasLine now from_str event_id shard records t fits line =
    sized (classify_all from_str event_id records).0 (length-classify_all from_str event_id records)
  where
    sized :
        (valid : List Accepted)
        → length valid ≤ length records
        → HasLine (process_valid (dynamo_store now) event_id shard valid t).1
    sized [] le = line
    sized (v ∷ valid) le =
        after_load-HasLine now event_id shard (v ∷ valid) t t.counters (omega arith) (omega arith)
          line
