-- ===== src/Room/Joins.antt =====
-- A batch of crates/assign_position beside the other Lambdas.
use Prim.Native.String.{String}
use text.Mathlib.Text.{◌==◌ as str_eq}
use text.Mathlib.TextEquality.{eq_iff}
use virtual_waiting_room.Prelude.{
  ℕ, zero, suc, ◌+◌, ◌≤◌, ◌<◌, ◌≡◌, ◌⊎◌, inl, inr, refl, ap, ◌∙◌, true, Option, none, some, List,
  [], ◌∷◌, length, get_or, u64_max, arith, Bool-cases,
}
use virtual_waiting_room.Prelude.Result.{ok}
use virtual_waiting_room.Assembly.{Shard, shards}
use virtual_waiting_room.Assembly.Laws.{sum}
use virtual_waiting_room.Items.Attributes.{and_then}
use virtual_waiting_room.Items.Counters.{Counters, PreQueueItem, PositionItem}
use virtual_waiting_room.Items.Resolve.{OpenOutputs, open_outputs}
use virtual_waiting_room.Tables.{Tables}
use virtual_waiting_room.GenerateToken.Live.{find_prequeue}
use virtual_waiting_room.AssignPosition.{
  JoinMessage, BatchRecord, PositionWrite, PreQueueWrite, block_start,
}
use virtual_waiting_room.AssignPosition.Batch.{process_batch}
use virtual_waiting_room.AssignPosition.Keeps.{Keeps, process_batch-keeps}
use virtual_waiting_room.AssignPosition.Live.{
  add_at, has_position, has_registration, claim_block, put_position, claim_prequeue_block,
  put_prequeue, dynamo_store, item_of, read_u64,
}
use virtual_waiting_room.AssignPosition.Live.Line.{line_end}
use virtual_waiting_room.AssignPosition.Live.Batch.{process_batch-HasLine}
use virtual_waiting_room.AssignPosition.Live.Register.Batch.{process_batch-HasRegister}
use virtual_waiting_room.Room.{IsUnopened}
use virtual_waiting_room.Room.Line.{All}
use virtual_waiting_room.Room.Held.{IsPlaced}
use virtual_waiting_room.Room.Sound.{HasOpened, IsBefore, IsAfter, IsSound}

length-add_at : (xs : List ℕ) (i n : ℕ) → length (add_at xs i n) ≡ length xs
unfolding add_at
length-add_at [] i n = refl
length-add_at (x ∷ xs) zero n = refl
length-add_at (x ∷ xs) (suc i) n = ap suc (length-add_at xs i n)

has_registration-find :
    (id : String) (rows : List PreQueueItem) (reg : PreQueueItem)
    → find_prequeue id rows ≡ some reg
    → has_registration id rows ≡ true
unfolding find_prequeue has_registration
has_registration-find id [] reg e = absurd (ground arith)
has_registration-find id (x ∷ rows) reg e = elim (Bool-cases (str_eq x.r id)) [
  | inl hit ↦ rw hit refl
  | inr miss ↦ rw miss (has_registration-find id rows reg (rw miss at e))
]

-- A registration that is found stays found.
pub put_prequeue-find :
    (now : ℕ) (w : PreQueueWrite) (t : Tables) (id : String) (reg : PreQueueItem)
    → find_prequeue id t.prequeue ≡ some reg
    → find_prequeue id (put_prequeue now w t).1.prequeue ≡ some reg
unfolding put_prequeue find_prequeue
put_prequeue-find now w t id reg e = elim (Bool-cases (has_registration w.request_id t.prequeue)) [
  | inl hit ↦ rw hit e
  | inr miss ↦ elim (Bool-cases (str_eq w.request_id id)) [
    | inl mine ↦
        let same : w.request_id ≡ id = (eq_iff w.request_id id).0 mine in
        let there = has_registration-find id t.prequeue reg e in
        let gone = rw same at miss in absurd (cc)
    | inr other ↦ rw (miss, other) e
  ]
]

pub put_prequeue_rest :
    (now : ℕ) (w : PreQueueWrite) (t : Tables)
    → ((put_prequeue now w t).1.counters ≡ t.counters)
      × ((put_prequeue now w t).1.positions ≡ t.positions)
      × ((put_prequeue now w t).1.shard_counts ≡ t.shard_counts)
unfolding put_prequeue
put_prequeue_rest now w t = (ground arith, ground arith, ground arith)

put_position_rest :
    (now : ℕ) (p : PositionWrite) (t : Tables)
    → ((put_position now p t).1.counters ≡ t.counters)
      × ((put_position now p t).1.prequeue ≡ t.prequeue)
      × ((put_position now p t).1.shard_counts ≡ t.shard_counts)
unfolding put_position
put_position_rest now p t = (ground arith, ground arith, ground arith)

unopened-none :
    (o : Option Counters) (out : OpenOutputs)
    → IsUnopened o
    → and_then o open_outputs ≡ some out
    → ⊥
unfolding open_outputs
unopened-none none out closed e = ground arith
unopened-none (some c) out closed e = let stuck : none ≡ some out = rw closed at e in ground arith

abbrev IsTen : Tables → Type 0
IsTen t = length t.shard_counts ≡ shards

-- Before the open a batch claims nothing of the line.
IsBefore-Keeps : (now : ℕ) → Keeps (dynamo_store now) (λ t. IsTen t × IsBefore t) ⊥ 0
unfolding claim_prequeue_block
IsBefore-Keeps now = record {
  loads = λ id t j. j;
  opens = λ id t o out j e found.
      unopened-none t.counters out (j.1.0) (let same : t.counters ≡ o = cc in rw same found);
  claims = λ id n t k j. absurd k;
  starts = λ id n end t j le e. ground arith;
  puts = λ p t k lt j. absurd k;
  claims_prequeue = λ id shard n t j. (length-add_at t.shard_counts shard.index n ∙ j.0, j.1);
  puts_prequeue = λ w t j.
      let (counters, positions, shard_counts) = put_prequeue_rest now w t in
      rw (counters, positions, shard_counts) j;
  reads_ids = λ ids t j. j;
}

module _ (hmac : List ℕ → List ℕ → List ℕ) (counts seed : List ℕ) where
  IsPlaced-put_prequeue :
      (now : ℕ) (w : PreQueueWrite) (t : Tables) (rows : List PositionItem)
      → All (IsPlaced hmac counts seed t.prequeue) rows
      → All (IsPlaced hmac counts seed (put_prequeue now w t).1.prequeue) rows
  IsPlaced-put_prequeue now w t [] all = tt
  IsPlaced-put_prequeue now w t (x ∷ rows) (inl past, all) =
      (inl past, IsPlaced-put_prequeue now w t rows all)
  IsPlaced-put_prequeue now w t (x ∷ rows) (inr (reg, found, place), all) = (
    inr (reg, put_prequeue-find now w t x.request_id reg found, place),
    IsPlaced-put_prequeue now w t rows all,
  )

  IsPlaced-put_position :
      (now : ℕ) (p : PositionWrite) (t : Tables)
      → sum counts < p.position
      → All (IsPlaced hmac counts seed t.prequeue) t.positions
      → All (IsPlaced hmac counts seed t.prequeue) (put_position now p t).1.positions
  unfolding put_position
  IsPlaced-put_position now p t lt all = elim (Bool-cases (has_position p.request_id t.positions)) [
    | inl hit ↦ rw hit all
    | inr miss ↦ rw miss (inl lt, all)
  ]

  claim_block-HasOpened :
      (id : String) (n : ℕ) (t : Tables)
      → HasOpened counts seed t.counters
      → HasOpened counts seed (claim_block id n t).1.counters
  unfolding claim_block
  claim_block-HasOpened id n t h = by_item t.counters h
    where
      by_item :
          (o : Option Counters)
          → HasOpened counts seed o
          → HasOpened counts seed
              (some (record (item_of id o) { queue_counter = (item_of id o).queue_counter + n }))
      by_item none h = absurd h
      by_item (some c) (opened, behind) = (
        record {
          ten = opened.ten;
          fits = opened.fits;
          has_seed = opened.has_seed;
          has_offsets = opened.has_offsets;
          has_count = opened.has_count;
        },
        omega arith,
      )

  -- After it a claimed block starts behind the cohort.
  claim_block_past :
      (id : String) (n end : ℕ) (t : Tables)
      → HasOpened counts seed t.counters
      → 1 ≤ n
      → (claim_block id n t).0 ≡ ok end
      → sum counts < block_start end n
  unfolding claim_block
  claim_block_past id n end t h le e = by_item t.counters h e
    where
      by_item :
          (o : Option Counters)
          → HasOpened counts seed o
          → read_u64 "queue_counter missing in ALL_NEW" ((item_of id o).queue_counter + n) ≡ ok end
          → sum counts < block_start end n
      by_item none h e = absurd h
      by_item (some c) (opened, behind) e = ground arith

  IsAfter-Keeps :
      (now : ℕ)
      → Keeps (dynamo_store now) (λ t. IsTen t × IsAfter hmac counts seed t) (Unit {0}) (sum counts)
  unfolding claim_prequeue_block claim_block
  IsAfter-Keeps now = record {
    loads = λ id t j. j;
    opens = λ id t o out j e found. tt;
    claims = λ id n t k j. (j.0, (claim_block-HasOpened id n t (j.1.0), j.1.1));
    starts = λ id n end t j le e. claim_block_past id n end t (j.1.0) le e;
    puts = λ p t k lt j.
        let (counters, prequeue, shard_counts) = put_position_rest now p t in
        rw (counters, prequeue, shard_counts)
          (j.0, (j.1.0, IsPlaced-put_position now p t lt (j.1.1)));
    claims_prequeue = λ id shard n t j. (length-add_at t.shard_counts shard.index n ∙ j.0, j.1);
    puts_prequeue = λ w t j.
        let (counters, positions, shard_counts) = put_prequeue_rest now w t in
        rw (counters, positions, shard_counts)
          (j.0, (j.1.0, IsPlaced-put_prequeue now w t t.positions (j.1.1)));
    reads_ids = λ ids t j. j;
  }

module _ (hmac : List ℕ → List ℕ → List ℕ) (now : ℕ) (from_str : String → Option JoinMessage)
    (event_id : String) (shard : Shard) (records : List BatchRecord) (t : Tables) where
  abbrev left : Tables
  left = (process_batch (dynamo_store now) from_str event_id shard records t).1

  batch-era :
      IsTen t
      → (IsBefore t ⊎ ((counts : List ℕ) × (seed : List ℕ) × IsAfter hmac counts seed t))
      → IsTen left
        × (IsBefore left ⊎ ((counts : List ℕ) × (seed : List ℕ) × IsAfter hmac counts seed left))
  batch-era ten (inl before) =
      let kept =
        process_batch-keeps (dynamo_store now) (λ u. IsTen u × IsBefore u) ⊥ 0 (IsBefore-Keeps now)
          from_str event_id shard records t (ten, before) in
      (kept.0, inl kept.1)
  batch-era ten (inr (counts, seed, after)) =
      let kept =
        process_batch-keeps (dynamo_store now) (λ u. IsTen u × IsAfter hmac counts seed u)
          (Unit {0}) (sum counts) (IsAfter-Keeps hmac counts seed now) from_str event_id shard
          records t (ten, after) in
      (kept.0, inr (counts, seed, kept.1))

  -- A batch with room in the counters keeps the tables sound.
  pub process_batch-IsSound :
      shard.index < shards
      → line_end t + length records ≤ u64_max
      → get_or t.shard_counts shard.index 0 + length records ≤ u64_max
      → IsSound hmac t
      → IsSound hmac left
  process_batch-IsSound inside line_fits shard_fits sound =
      let (ten, era) = batch-era sound.ten sound.era in
      record {
        ten = ten;
        register =
            process_batch-HasRegister now event_id shard t (rw (sound.ten) inside) (sound.register)
              from_str records shard_fits;
        line = process_batch-HasLine now from_str event_id shard records t line_fits (sound.line);
        era = era;
      }
