-- ===== src/AssignPosition/Live/Register.antt =====
-- The register, which crates/assign_position writes to `PreQueue`: request ids, and places
-- `(shard, local index)` below the shard's count.
pub mod Batch
pub mod Places
use Prim.Native.String.{String}
use virtual_waiting_room.Prelude.{
  ℕ, zero, suc, ◌+◌, ◌≤◌, ◌<◌, ◌≡◌, ◌≢◌, ◌⊎◌, inl, inr, refl, ap, ◌∙◌, Bool, true, false, List, [],
  ◌∷◌, length, get_or, u64_max, arith, Bool-cases, ◌==◌,
}
use virtual_waiting_room.Assembly.{Shard}
use virtual_waiting_room.Items.Counters.{PreQueueItem}
use virtual_waiting_room.Tables.{Tables}
use virtual_waiting_room.AssignPosition.{PreQueueWrite, Accepted, prequeue_write}
use virtual_waiting_room.AssignPosition.Batch.{write_prequeue}
use virtual_waiting_room.AssignPosition.Live.{add_at, has_registration, put_prequeue, dynamo_store}

-- No row has this place.
abbrev pub IsFree : ℕ → ℕ → List PreQueueItem → Type 0
IsFree s l [] = Unit {0}
IsFree s l (row ∷ rows) = ((row.s ≢ s) ⊎ (row.l ≢ l)) × IsFree s l rows

abbrev pub IsRegister : List ℕ → List PreQueueItem → Type 0
IsRegister counts [] = Unit {0}
IsRegister counts (row ∷ rows) =
    (row.l < get_or counts row.s 0)
    × IsFree row.s row.l rows
    × (has_registration row.r rows ≡ false)
    × IsRegister counts rows

IsRegister-IsFree :
    (counts : List ℕ) (s l : ℕ) (rows : List PreQueueItem)
    → get_or counts s 0 ≤ l
    → IsRegister counts rows
    → IsFree s l rows
IsRegister-IsFree counts s l [] h reg = tt
IsRegister-IsFree counts s l (row ∷ rows) h reg = (apart, IsRegister-IsFree counts s l rows h reg.3)
  where
    apart : (row.s ≢ s) ⊎ (row.l ≢ l)
    apart = elim (Bool-cases (row.s == s)) [
      | inl same ↦
          let eq : row.s ≡ s = ground arith in
          inr (λ q. omega (arith, ap (λ x. get_or counts x 0) eq, reg.0))
      | inr other ↦ inl (ground arith)
    ]

pub get_or-add_at :
    (xs : List ℕ) (i n : ℕ) → i < length xs → get_or (add_at xs i n) i 0 ≡ get_or xs i 0 + n
unfolding add_at
get_or-add_at [] i n h = absurd (omega arith)
get_or-add_at (x ∷ xs) zero n h = refl
get_or-add_at (x ∷ xs) (suc i) n h = get_or-add_at xs i n (omega arith)

get_or-add_at_mono :
    (xs : List ℕ) (i m n j : ℕ) → m ≤ n → get_or (add_at xs i m) j 0 ≤ get_or (add_at xs i n) j 0
unfolding add_at
get_or-add_at_mono [] i m n j h = omega arith
get_or-add_at_mono (x ∷ xs) zero m n zero h = omega arith
get_or-add_at_mono (x ∷ xs) zero m n (suc j) h = omega arith
get_or-add_at_mono (x ∷ xs) (suc i) m n zero h = omega arith
get_or-add_at_mono (x ∷ xs) (suc i) m n (suc j) h = get_or-add_at_mono xs i m n j h

IsRegister-raise :
    (counts counts' : List ℕ) (rows : List PreQueueItem)
    → ((s : ℕ) → get_or counts s 0 ≤ get_or counts' s 0)
    → IsRegister counts rows
    → IsRegister counts' rows
IsRegister-raise counts counts' [] h reg = tt
IsRegister-raise counts counts' (row ∷ rows) h reg =
    (omega (arith, h row.s, reg.0), reg.1, reg.2, IsRegister-raise counts counts' rows h reg.3)

put_prequeue-shard_counts :
    (now : ℕ) (w : PreQueueWrite) (t : Tables)
    → (put_prequeue now w t).1.shard_counts ≡ t.shard_counts
unfolding put_prequeue
put_prequeue-shard_counts now w t = ground arith

module _ (now : ℕ) (counts : List ℕ) (shard : Shard) (inside : shard.index < length counts) where
  abbrev grown : ℕ → List ℕ
  grown offset = add_at counts shard.index offset

  put_prequeue-IsRegister :
      (offset : ℕ) (w : PreQueueWrite) (t : Tables)
      → w.shard ≡ shard
      → w.local_index ≡ get_or counts shard.index 0 + offset
      → IsRegister (grown offset) t.prequeue
      → IsRegister (grown (offset + 1)) (put_prequeue now w t).1.prequeue
  unfolding put_prequeue
  put_prequeue-IsRegister offset w t es el reg =
      let place : w.shard.index ≡ shard.index = ap (λ x. x.index) es in
      let raised =
        IsRegister-raise (grown offset) (grown (offset + 1)) t.prequeue
          (λ s. get_or-add_at_mono counts shard.index offset (offset + 1) s (omega arith)) reg in
      let before = get_or-add_at counts shard.index offset inside in
      let after = get_or-add_at counts shard.index (offset + 1) inside in
      elim (Bool-cases (has_registration w.request_id t.prequeue)) [
        | inl hit ↦ rw hit raised
        | inr miss ↦ rw miss (
          rw place (omega (arith, after)),
          rw place (
              IsRegister-IsFree (grown offset) shard.index w.local_index t.prequeue
                (omega (arith, before)) reg),
          miss,
          raised,
        )
      ]

  -- The write loop of the pre-queue path, from one offset of its block on.
  pub write_prequeue-IsRegister :
      (offset : ℕ) (group : List Accepted) (t : Tables)
      → get_or counts shard.index 0 + offset + length group ≤ u64_max
      → IsRegister (grown offset) t.prequeue
      → let out =
          write_prequeue (dynamo_store now) shard (get_or counts shard.index 0) offset group t in
        IsRegister (grown (offset + length group)) out.2.prequeue
        × (out.2.shard_counts ≡ t.shard_counts)
  unfolding write_prequeue
  write_prequeue-IsRegister offset [] t fits reg =
      let none_left : offset + 0 ≡ offset = omega arith in (rw none_left reg, refl)
  write_prequeue-IsRegister offset (v ∷ group) t fits reg =
      let start = get_or counts shard.index 0 in
      let w = prequeue_write shard start offset v in
      let t' = (put_prequeue now w t).1 in
      let step = put_prequeue-IsRegister offset w t refl (omega arith) reg in
      let rest = write_prequeue-IsRegister (offset + 1) group t' (omega arith) step in
      let shift : offset + suc (length group) ≡ offset + 1 + length group = omega arith in
      (rw shift rest.0, rest.1 ∙ put_prequeue-shard_counts now w t)
