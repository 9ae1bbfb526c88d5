-- ===== src/AssignPosition/Live/Line.antt =====
-- The live line, which crates/assign_position writes to `Positions`: the counter and the places.
use Prim.Native.String.{String}
use virtual_waiting_room.Prelude.{
  ℕ, suc, ◌+◌, ◌-◌, ◌≤◌, ◌<◌, ◌≡◌, ◌≢◌, inl, inr, refl, ap, ◌∙◌, Option, none, some, List, [], ◌∷◌,
  map, length, u64_max, arith, Bool-cases,
}
use virtual_waiting_room.Prelude.Result.{Result, ok, err}
use virtual_waiting_room.Items.Counters.{Counters, PositionItem}
use virtual_waiting_room.Assembly.{assign}
use virtual_waiting_room.Items.Attributes.{and_then}
use virtual_waiting_room.Items.Resolve.{OpenOutputs, open_outputs}
use virtual_waiting_room.Tables.{Tables}
use virtual_waiting_room.AssignPosition.{
  StoreError, PositionWrite, PreQueueWrite, Accepted, position_write, straggler_write, block_start,
  stragglers, is_live_join,
}
use virtual_waiting_room.AssignPosition.Batch.{
  write_positions, process_live_batch, write_stragglers, claim_late, after_block,
  after_straggler_block, after_open, fixup_stragglers,
}
use virtual_waiting_room.AssignPosition.Live.{
  item_of, claim_block, has_position, put_position, dynamo_store,
}

abbrev pub IsFree : ℕ → List PositionItem → Type 0
IsFree p [] = Unit {0}
IsFree p (row ∷ rows) = (row.queue_position ≢ p) × IsFree p rows

-- Distinct places, none past `bound`.
abbrev pub IsLine : ℕ → List PositionItem → Type 0
IsLine bound [] = Unit {0}
IsLine bound (row ∷ rows) =
    (row.queue_position ≤ bound) × IsFree row.queue_position rows × IsLine bound rows

IsLine-IsFree : (b p : ℕ) (rows : List PositionItem) → b < p → IsLine b rows → IsFree p rows
IsLine-IsFree b p [] lt line = tt
IsLine-IsFree b p (row ∷ rows) lt line = (omega (arith, line.0), IsLine-IsFree b p rows lt line.2)

IsLine-raise : (b b' : ℕ) (rows : List PositionItem) → b ≤ b' → IsLine b rows → IsLine b' rows
IsLine-raise b b' [] le line = tt
IsLine-raise b b' (row ∷ rows) le line =
    (omega (arith, line.0), line.1, IsLine-raise b b' rows le line.2)

put_position-IsLine :
    (now b : ℕ) (w : PositionWrite) (t : Tables)
    → b < w.position
    → IsLine b t.positions
    → IsLine w.position (put_position now w t).1.positions
unfolding put_position
put_position-IsLine now b w t lt line = elim (Bool-cases (has_position w.request_id t.positions)) [
  | inl hit ↦ rw hit (IsLine-raise b w.position t.positions (omega arith) line)
  | inr miss ↦ rw miss (
    omega arith,
    IsLine-IsFree b w.position t.positions lt line,
    IsLine-raise b w.position t.positions (omega arith) line,
  )
]

put_position-counters :
    (now : ℕ) (w : PositionWrite) (t : Tables) → (put_position now w t).1.counters ≡ t.counters
unfolding put_position
put_position-counters now w t = ground arith

write_positions-IsLine :
    (now start offset : ℕ) (valid : List Accepted) (t : Tables)
    → 1 ≤ start
    → start + offset + length valid ≤ u64_max + 1
    → IsLine (start + offset - 1) t.positions
    → IsLine
        (start + offset + length valid - 1)
        (write_positions (dynamo_store now) start offset valid t).1.positions
unfolding write_positions
write_positions-IsLine now start offset [] t pos fits line =
    IsLine-raise _ _ t.positions (omega arith) line
write_positions-IsLine now start offset (v ∷ valid) t pos fits line =
    let w = position_write start offset v in
    let at_place : w.position ≡ start + offset = omega arith in
    let t' = (put_position now w t).1 in
    let line' = put_position-IsLine now (start + offset - 1) w t (omega arith) line in
    let after =
      write_positions-IsLine now start (offset + 1) valid t' pos (omega arith)
        (IsLine-raise w.position (start + (offset + 1) - 1) t'.positions (omega arith) line') in
    IsLine-raise (start + (offset + 1) + length valid - 1) (start + offset + suc (length valid) - 1)
      _ (omega arith) after

write_positions-counters :
    (now start offset : ℕ) (valid : List Accepted) (t : Tables)
    → (write_positions (dynamo_store now) start offset valid t).1.counters ≡ t.counters
unfolding write_positions
write_positions-counters now start offset [] t = refl
write_positions-counters now start offset (v ∷ valid) t =
    write_positions-counters now start (offset + 1) valid
      (put_position now (position_write start offset v) t).1
    ∙ put_position-counters now (position_write start offset v) t

-- The last place that the counter has given out; 0 while there is no item.
abbrev counter_of : Option Counters → ℕ
counter_of none = 0
counter_of (some c) = c.queue_counter

abbrev pub line_end : Tables → ℕ
line_end t = counter_of t.counters

abbrev pub HasLine : Tables → Type 0
HasLine t = IsLine (line_end t) t.positions

item_of_lem :
    (event_id : String) (o : Option Counters) → (item_of event_id o).queue_counter ≡ counter_of o
item_of_lem event_id none = refl
item_of_lem event_id (some c) = refl

claim_block_lem :
    (event_id : String) (n : ℕ) (t : Tables)
    → line_end t + n ≤ u64_max
    → ((claim_block event_id n t).0 ≡ ok (line_end t + n))
      × (line_end (claim_block event_id n t).1 ≡ line_end t + n)
unfolding claim_block
claim_block_lem event_id n t fits = rw (item_of_lem event_id t.counters) (ground arith, refl)

-- A block of places is claimed and given out to a list of visitors.
pub process_live_batch-HasLine :
    (now : ℕ) (event_id : String) (valid : List Accepted) (t : Tables)
    → 1 ≤ length valid
    → line_end t + length valid ≤ u64_max
    → HasLine t
    → HasLine (process_live_batch (dynamo_store now) event_id valid t).1
unfolding process_live_batch claim_block
process_live_batch-HasLine now event_id valid t some_valid fits line =
    let (answer, moved) = claim_block_lem event_id (length valid) t fits in
    let t' = (claim_block event_id (length valid) t).1 in
    let start = block_start (line_end t + length valid) (length valid) in
    let first : start ≡ line_end t + 1 = omega arith in
    let kept = write_positions-counters now start 0 valid t' in
    let placed =
      write_positions-IsLine now start 0 valid t' (omega arith) (omega arith)
        (IsLine-raise (line_end t) (start + 0 - 1) t.positions (omega arith) line) in
    let moved' = ap counter_of kept ∙ moved in
    rw answer (
      IsLine-raise (start + 0 + length valid - 1) _
        (write_positions (dynamo_store now) start 0 valid t').1.positions (omega arith) placed)

-- A straggler's write is that of an accepted record.
abbrev as_accepted : PreQueueWrite → Accepted
as_accepted w = ("", record { request_id = w.request_id; event_id = ""; h = w.digest })

write_stragglers_lem :
    (now start offset : ℕ) (writes : List PreQueueWrite) (t : Tables)
    → write_stragglers (dynamo_store now) start offset writes t
      ≡ (write_positions (dynamo_store now) start offset (map as_accepted writes) t).1
unfolding write_stragglers write_positions
write_stragglers_lem now start offset [] t = refl
write_stragglers_lem now start offset (w ∷ writes) t =
    write_stragglers_lem now start (offset + 1) writes
      (put_position now (straggler_write start offset w) t).1

length-as_accepted : (writes : List PreQueueWrite) → length (map as_accepted writes) ≡ length writes
length-as_accepted [] = refl
length-as_accepted (w ∷ writes) = ap suc (length-as_accepted writes)

claim_late_lem :
    (now : ℕ) (event_id : String) (late : List PreQueueWrite) (t : Tables)
    → 1 ≤ length late
    → claim_late (dynamo_store now) event_id late t
      ≡ (process_live_batch (dynamo_store now) event_id (map as_accepted late) t).1
unfolding process_live_batch
claim_late_lem now event_id [] t h = absurd (omega arith)
claim_late_lem now event_id (w ∷ late) t h =
    rw (length-as_accepted late) (claimed (claim_block event_id (suc (length late)) t))
  where
    claimed :
        (r : Result ℕ StoreError × Tables)
        → after_straggler_block (dynamo_store now) (w ∷ late) r
          ≡ (after_block (dynamo_store now) (map as_accepted (w ∷ late)) r).1
    claimed (err e, t') = refl
    claimed (ok end, t') = rw (length-as_accepted late) (write_stragglers_lem now _ 0 (w ∷ late) t')

pub length-stragglers :
    (opened : OpenOutputs) (writes : List PreQueueWrite)
    → length (stragglers opened writes) ≤ length writes
unfolding stragglers
length-stragglers opened [] = omega arith
length-stragglers opened (w ∷ writes) =
    elim (Bool-cases (is_live_join (assign opened.offsets w.shard.index w.local_index))) [
      | inl late ↦ rw late (omega (arith, length-stragglers opened writes))
      | inr counted ↦ rw counted (omega (arith, length-stragglers opened writes))
    ]

pub claim_late-HasLine :
    (now : ℕ) (event_id : String) (late : List PreQueueWrite) (t : Tables)
    → line_end t + length late ≤ u64_max
    → HasLine t
    → HasLine (claim_late (dynamo_store now) event_id late t)
claim_late-HasLine now event_id [] t fits line = line
claim_late-HasLine now event_id (w ∷ late) t fits line =
    rw (claim_late_lem now event_id (w ∷ late) t (omega arith)) (
      process_live_batch-HasLine now event_id (map as_accepted (w ∷ late)) t (omega arith)
        (rw (length-as_accepted late) (omega arith)) line)

-- The fix-up gives the late registrations of a batch places at the end of the line.
pub fixup_stragglers-HasLine :
    (now : ℕ) (event_id : String) (writes : List PreQueueWrite) (t : Tables)
    → line_end t + length writes ≤ u64_max
    → HasLine t
    → HasLine (fixup_stragglers (dynamo_store now) event_id writes t)
unfolding fixup_stragglers
fixup_stragglers-HasLine now event_id writes t fits line =
    reloaded (and_then t.counters open_outputs)
  where
    reloaded :
        (o : Option OpenOutputs) → HasLine (after_open (dynamo_store now) event_id writes o t)
    reloaded none = line
    reloaded (some opened) =
        claim_late-HasLine now event_id (stragglers opened writes) t
          (omega (arith, length-stragglers opened writes)) line
