-- ===== src/AssignPosition/Live/Shared/Line.antt =====
-- Blocks of places of crates/assign_position/src/lib.rs, claimed and written over shared tables.
use Prim.Native.String.{String}
use virtual_waiting_room.Prelude.{ℕ, ◌+◌, ◌≤◌, ◌≡◌, refl, ap, List, [], ◌∷◌, length, u64_max, arith}
use virtual_waiting_room.Prelude.Result.{Result, ok, err}
use virtual_waiting_room.AssignPosition.{
  StoreError, PreQueueWrite, Accepted, position_write, straggler_write,
}
use virtual_waiting_room.AssignPosition.Batch.{
  write_positions, after_block, process_live_batch, write_stragglers, after_straggler_block,
  claim_late,
}
use virtual_waiting_room.AssignPosition.Live.{dynamo_store}
use virtual_waiting_room.AssignPosition.Live.Line.{
  HasLine, process_live_batch-HasLine, claim_late-HasLine,
}
use virtual_waiting_room.AssignPosition.Live.Shared.{
  Shared, turn, lifted, shared_store, IsKept, turn-IsKept,
}

module _ (now cap : ℕ) where
  write_positions-lifted :
      (start offset : ℕ) (valid : List Accepted) (w : Shared)
      → write_positions (shared_store now) start offset valid w
        ≡ lifted (write_positions (dynamo_store now) start offset valid) w
  unfolding write_positions
  write_positions-lifted start offset [] w = refl
  write_positions-lifted start offset (v ∷ valid) w =
      let (result, w') = (shared_store now).put_position (position_write start offset v) w in
      rw (write_positions-lifted start (offset + 1) valid w') refl

  write_stragglers-lifted :
      (start offset : ℕ) (writes : List PreQueueWrite) (w : Shared)
      → (write_stragglers (shared_store now) start offset writes w).tables
        ≡ write_stragglers (dynamo_store now) start offset writes w.tables
  unfolding write_stragglers
  write_stragglers-lifted start offset [] w = refl
  write_stragglers-lifted start offset (p ∷ writes) w =
      write_stragglers-lifted start (offset + 1) writes
        ((shared_store now).put_position (straggler_write start offset p) w).1

  after_block-lifted :
      (valid : List Accepted) (r : Result ℕ StoreError) (w : Shared)
      → (after_block (shared_store now) valid (r, w)).1.tables
        ≡ (after_block (dynamo_store now) valid (r, w.tables)).1
  after_block-lifted valid (err e) w = refl
  after_block-lifted valid (ok end) w = ap (λ a. a.1.tables) (write_positions-lifted _ 0 valid w)

  after_straggler_block-lifted :
      (late : List PreQueueWrite) (r : Result ℕ StoreError) (w : Shared)
      → (after_straggler_block (shared_store now) late (r, w)).tables
        ≡ after_straggler_block (dynamo_store now) late (r, w.tables)
  after_straggler_block-lifted late (err e) w = refl
  after_straggler_block-lifted late (ok end) w = write_stragglers-lifted _ 0 late w

  pub live-HasLine :
      (id : String) (valid : List Accepted) (w : Shared)
      → 1 ≤ length valid
      → cap + length valid ≤ u64_max
      → IsKept cap w
      → HasLine (process_live_batch (shared_store now) id valid w).1.tables
  unfolding process_live_batch
  live-HasLine id valid w some_valid fits kept =
      let w1 = turn w in
      let (line, all) = turn-IsKept cap w kept in
      let (r, t) = (dynamo_store now).claim_block id (length valid) w1.tables in
      rw (after_block-lifted valid r (record w1 { tables = t })) (
        process_live_batch-HasLine now id valid w1.tables some_valid (omega (arith, line.low))
          (line.line))

  pub claim_late-shared :
      (id : String) (late : List PreQueueWrite) (w : Shared)
      → cap + length late ≤ u64_max
      → IsKept cap w
      → HasLine (claim_late (shared_store now) id late w).tables
  claim_late-shared id [] w fits kept = kept.0.line
  claim_late-shared id (p ∷ late) w fits kept =
      let w1 = turn w in
      let (line, all) = turn-IsKept cap w kept in
      let (r, t) = (dynamo_store now).claim_block id (length (p ∷ late)) w1.tables in
      rw (after_straggler_block-lifted (p ∷ late) r (record w1 { tables = t }))
        (claim_late-HasLine now id (p ∷ late) w1.tables (omega (arith, line.low)) (line.line))
