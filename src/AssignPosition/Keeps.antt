-- ===== src/AssignPosition/Keeps.antt =====
-- What a batch of crates/assign_position/src/lib.rs keeps over any store: a rule for the whole of
-- `process_batch` from one rule for each operation of the port.
use Prim.Native.String.{String}
use virtual_waiting_room.Prelude.{
  ℕ, suc, ◌+◌, ◌≤◌, ◌<◌, ◌≡◌, refl, Option, none, some, List, [], ◌∷◌, length, arith, u64_max,
  saturating_add,
}
use virtual_waiting_room.Prelude.Result.{Result, ok, err}
use virtual_waiting_room.Ids.{Phase, idle, pre_queue, active, post_event, maintenance}
use virtual_waiting_room.Assembly.{Shard}
use virtual_waiting_room.Items.Attributes.{and_then}
use virtual_waiting_room.Items.Counters.{Counters}
use virtual_waiting_room.Items.Resolve.{OpenOutputs, open_outputs}
use virtual_waiting_room.AssignPosition.{
  JoinMessage, BatchRecord, PositionWrite, PreQueueWrite, StoreError, Store, Accepted, classify_all,
  stragglers, block_start, position_write, straggler_write, prequeue_write,
}
use virtual_waiting_room.AssignPosition.Batch.{
  write_positions, after_block, process_live_batch, write_stragglers, after_straggler_block,
  claim_late, after_open, after_reload, fixup_stragglers, write_prequeue, after_writes, after_claim,
  with_group, registered_ids_or_unknown, process_prequeue_batch, by_phase, by_open, after_load,
  process_valid, process_batch,
}

-- `J` is kept by each operation. A block of the line is claimed, and a place written, only where the
-- counters that were loaded say that the event is open, of which `K` is what that tells; the places
-- are past `low`.
pub record Keeps {ℓ κ} {S : Type 0} (store : Store S) (J : S → Type ℓ) (K : Type κ) (low : ℕ)
    : Type (ℓ ⊔ κ) where
  pub loads : (id : String) (w : S) → J w → J (store.load_counters id w).1
  pub opens :
      (id : String) (w : S) (o : Option Counters) (out : OpenOutputs)
      → J w
      → (store.load_counters id w).0 ≡ ok o
      → and_then o open_outputs ≡ some out
      → K
  pub claims : (id : String) (n : ℕ) (w : S) → K → J w → J (store.claim_block id n w).1
  pub starts :
      (id : String) (n end : ℕ) (w : S)
      → J w
      → 1 ≤ n
      → (store.claim_block id n w).0 ≡ ok end
      → low < block_start end n
  pub puts : (p : PositionWrite) (w : S) → K → low < p.position → J w → J (store.put_position p w).1
  pub claims_prequeue :
      (id : String) (shard : Shard) (n : ℕ) (w : S)
      → J w
      → J (store.claim_prequeue_block id shard n w).1
  pub puts_prequeue : (p : PreQueueWrite) (w : S) → J w → J (store.put_prequeue p w).1
  pub reads_ids : (ids : List String) (w : S) → J w → J (store.registered_ids ids w).1

offset-lt :
    (low start offset : ℕ) → low < start → start ≤ u64_max → low < saturating_add start offset
offset-lt low start offset lt fits = ground arith

block_start-le : (end n : ℕ) → block_start end n ≤ u64_max
block_start-le end n = ground arith

module _ {ℓ κ} {S : Type 0} (store : Store S) (J : S → Type ℓ) (K : Type κ) (low : ℕ)
    (rule : Keeps store J K low) where
  write_positions-keeps :
      (start offset : ℕ) (valid : List Accepted) (w : S)
      → K
      → low < start
      → start ≤ u64_max
      → J w
      → J (write_positions store start offset valid w).1
  unfolding write_positions
  write_positions-keeps start offset [] w k lt le j = j
  write_positions-keeps start offset (v ∷ valid) w k lt le j =
      write_positions-keeps start (offset + 1) valid _ k lt le
        (rule.puts (position_write start offset v) w k (offset-lt low start offset lt le) j)

  process_live_batch-keeps :
      (id : String) (v : Accepted) (valid : List Accepted) (w : S)
      → K
      → J w
      → J (process_live_batch store id (v ∷ valid) w).1
  unfolding process_live_batch
  process_live_batch-keeps id v valid w k j =
      let n = suc (length valid) in
      let out = store.claim_block id n w in
      after out.0 out.1 (λ end e. rule.starts id n end w j (omega arith) e) (rule.claims id n w k j)
    where
      after :
          (r : Result ℕ StoreError) (w' : S)
          → ((end : ℕ) → r ≡ ok end → low < block_start end (suc (length valid)))
          → J w'
          → J (after_block store (v ∷ valid) (r, w')).1
      after (err e) w' lt j' = j'
      after (ok end) w' lt j' =
          write_positions-keeps _ 0 (v ∷ valid) w' k (lt end refl) (block_start-le end _) j'

  write_stragglers-keeps :
      (start offset : ℕ) (writes : List PreQueueWrite) (w : S)
      → K
      → low < start
      → start ≤ u64_max
      → J w
      → J (write_stragglers store start offset writes w)
  unfolding write_stragglers
  write_stragglers-keeps start offset [] w k lt le j = j
  write_stragglers-keeps start offset (p ∷ writes) w k lt le j =
      write_stragglers-keeps start (offset + 1) writes _ k lt le
        (rule.puts (straggler_write start offset p) w k (offset-lt low start offset lt le) j)

  claim_late-keeps :
      (id : String) (late : List PreQueueWrite) (w : S) → K → J w → J (claim_late store id late w)
  claim_late-keeps id [] w k j = j
  claim_late-keeps id (p ∷ late) w k j =
      let n = suc (length late) in
      let out = store.claim_block id n w in
      after out.0 out.1 (λ end e. rule.starts id n end w j (omega arith) e) (rule.claims id n w k j)
    where
      after :
          (r : Result ℕ StoreError) (w' : S)
          → ((end : ℕ) → r ≡ ok end → low < block_start end (suc (length late)))
          → J w'
          → J (after_straggler_block store (p ∷ late) (r, w'))
      after (err e) w' lt j' = j'
      after (ok end) w' lt j' =
          write_stragglers-keeps _ 0 (p ∷ late) w' k (lt end refl) (block_start-le end _) j'

  fixup_stragglers-keeps :
      (id : String) (writes : List PreQueueWrite) (w : S)
      → J w
      → J (fixup_stragglers store id writes w)
  unfolding fixup_stragglers
  fixup_stragglers-keeps id writes w j =
      let out = store.load_counters id w in
      after out.0 out.1 (λ o found e. rule.opens id w o found j e) (rule.loads id w j)
    where
      opened :
          (o : Option OpenOutputs) (w' : S)
          → ((found : OpenOutputs) → o ≡ some found → K)
          → J w'
          → J (after_open store id writes o w')
      opened none w' k j' = j'
      opened (some found) w' k j' =
          claim_late-keeps id (stragglers found writes) w' (k found refl) j'

      after :
          (r : Result (Option Counters) StoreError) (w' : S)
          → ((o : Option Counters) (found : OpenOutputs)
              → r ≡ ok o
              → and_then o open_outputs ≡ some found
              → K)
          → J w'
          → J (after_reload store id writes (r, w'))
      after (err e) w' k j' = j'
      after (ok o) w' k j' = opened (and_then o open_outputs) w' (λ found. k o found refl) j'

  write_prequeue-keeps :
      (shard : Shard) (start offset : ℕ) (group : List Accepted) (w : S)
      → J w
      → J (write_prequeue store shard start offset group w).2
  unfolding write_prequeue
  write_prequeue-keeps shard start offset [] w j = j
  write_prequeue-keeps shard start offset (v ∷ group) w j =
      write_prequeue-keeps shard start (offset + 1) group _
        (rule.puts_prequeue (prequeue_write shard start offset v) w j)

  after_writes-keeps :
      (id : String) (out : List String × List PreQueueWrite × S)
      → J out.2
      → J (after_writes store id out).1
  after_writes-keeps id (failures, [], w) j = j
  after_writes-keeps id (failures, p ∷ writes, w) j = fixup_stragglers-keeps id (p ∷ writes) w j

  with_group-keeps :
      (id : String) (shard : Shard) (group : List Accepted) (w : S)
      → J w
      → J (with_group store id shard group w).1
  with_group-keeps id shard [] w j = j
  with_group-keeps id shard (v ∷ group) w j =
      let out = store.claim_prequeue_block id shard (suc (length group)) w in
      after out.0 out.1 (rule.claims_prequeue id shard (suc (length group)) w j)
    where
      after :
          (r : Result ℕ StoreError) (w' : S)
          → J w'
          → J (after_claim store id shard (v ∷ group) (r, w')).1
      after (err e) w' j' = j'
      after (ok start) w' j' =
          after_writes-keeps id (write_prequeue store shard start 0 (v ∷ group) w')
            (write_prequeue-keeps shard start 0 (v ∷ group) w' j')

  process_prequeue_batch-keeps :
      (id : String) (shard : Shard) (valid : List Accepted) (w : S)
      → J w
      → J (process_prequeue_batch store id shard valid w).1
  unfolding process_prequeue_batch registered_ids_or_unknown
  process_prequeue_batch-keeps id shard valid w j =
      with_group-keeps id shard _ _ (rule.reads_ids _ w j)

  after_load-keeps :
      (id : String) (shard : Shard) (v : Accepted) (valid : List Accepted)
      (r : Result (Option Counters) StoreError) (w : S)
      → ((o : Option Counters) (found : OpenOutputs)
          → r ≡ ok o
          → and_then o open_outputs ≡ some found
          → K)
      → J w
      → J (after_load store id shard (v ∷ valid) (r, w)).1
  after_load-keeps id shard v valid (err e) w k j = j
  after_load-keeps id shard v valid (ok none) w k j = j
  after_load-keeps id shard v valid (ok (some c)) w k j =
      opened (open_outputs c) (λ found. k (some c) found refl)
    where
      phased : (p : Phase) → J (by_phase store id shard (v ∷ valid) p w).1
      phased pre_queue = process_prequeue_batch-keeps id shard (v ∷ valid) w j
      phased idle = j
      phased active = j
      phased post_event = j
      phased maintenance = j

      opened :
          (out : Option OpenOutputs)
          → ((found : OpenOutputs) → out ≡ some found → K)
          → J (by_open store id shard (v ∷ valid) c.phase out w).1
      opened (some out) known = process_live_batch-keeps id v valid w (known out refl) j
      opened none known = phased c.phase

  pub process_batch-keeps :
      (from_str : String → Option JoinMessage) (id : String) (shard : Shard)
      (records : List BatchRecord) (w : S)
      → J w
      → J (process_batch store from_str id shard records w).1
  unfolding process_batch
  process_batch-keeps from_str id shard records w j = sized (classify_all from_str id records).0
    where
      sized : (valid : List Accepted) → J (process_valid store id shard valid w).1
      sized [] = j
      sized (v ∷ valid) =
          let out = store.load_counters id w in
          after_load-keeps id shard v valid out.0 out.1 (λ o found e. rule.opens id w o found j e)
            (rule.loads id w j)
