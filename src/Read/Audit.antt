-- ===== src/Read/Audit.antt =====
-- What an auditor recomputes from `/status` of crates/read/src/lib.rs, and `/queue_num`.
use Prim.Native.String.{String}
use virtual_waiting_room.Prelude.{
  ℕ, ◌≡◌, refl, false, Option, none, some, List, leb, if◌then◌else◌, inl, inr, Bool-cases,
}
use virtual_waiting_room.Prelude.Result.{Result, ok, err}
use virtual_waiting_room.Permutation.{prp}
use virtual_waiting_room.Assembly.{shards, Assignment, pre_queue, live_join, assign, from_parts}
use virtual_waiting_room.Items.Attributes.{and_then}
use virtual_waiting_room.Items.Counters.{Counters, PreQueueItem}
use virtual_waiting_room.Items.Resolve.{open_outputs, resolve_prequeue, position_of}
use virtual_waiting_room.Read.{
  StatusResponse, PollPolicy, status, ResolvedQueueNum, pre_queued, straggled, QueueNumError,
  queue_not_open, queue_bad_shard, queue_num, answer,
}

module _ (hmac : List ℕ → List ℕ → List ℕ) (hex_encode : List ℕ → String)
    (hex_decode : String → List ℕ) where
  -- What an auditor recomputes for the registration `(shard, local index)` from three published
  -- fields.
  abbrev audited : Assignment → List ℕ → ℕ → Result ResolvedQueueNum QueueNumError
  audited (pre_queue index) seed n = ok (
      pre_queued
        (record { position = prp hmac (record { bytes = seed }) index n; live_join = false }))
  audited live_join seed n = ok straggled

  abbrev audit_fields :
      Option String → Option (List ℕ) → Option ℕ → ℕ → ℕ → Result ResolvedQueueNum QueueNumError
  audit_fields (some seed) (some offsets) (some n) shard local_index =
      if leb shards shard
      then err queue_bad_shard
      else audited (assign (record { offsets = offsets; participant_count = n }) shard local_index)
          (hex_decode seed) n
  audit_fields (some seed) (some offsets) none shard local_index = err queue_not_open
  audit_fields (some seed) none n shard local_index = err queue_not_open
  audit_fields none offsets n shard local_index = err queue_not_open

  abbrev pub audit : StatusResponse → ℕ → ℕ → Result ResolvedQueueNum QueueNumError
  audit published =
      audit_fields published.shuffle_seed published.prequeue_offsets published.participant_count

  answer_at :
      (offsets seed : List ℕ) (n : ℕ) (a : Assignment)
      → answer hmac (
          ok (
            position_of hmac
              (record {
                offsets = record { offsets = offsets; participant_count = n };
                seed = record { bytes = seed };
              })
              a))
        ≡ audited a seed n
  answer_at offsets seed n (pre_queue i) = refl
  answer_at offsets seed n live_join = refl

  audit_parts :
      (seed offsets : Option (List ℕ)) (n : Option ℕ) (c : Counters) (row : PreQueueItem)
      → ((bytes : List ℕ) → seed ≡ some bytes → hex_decode (hex_encode bytes) ≡ bytes)
      → c.shuffle_seed ≡ seed
      → c.prequeue_offsets ≡ offsets
      → c.participant_count ≡ n
      → queue_num hmac c row
        ≡ audit_fields (and_then seed (λ bytes. some (hex_encode bytes))) offsets n row.s row.l
  unfolding queue_num resolve_prequeue open_outputs from_parts
  audit_parts none offsets n c row back es eo en = rw es
  audit_parts (some seed) none n c row back es eo en = rw (es, eo)
  audit_parts (some seed) (some offsets) none c row back es eo en = rw (es, eo, en)
  audit_parts (some seed) (some offsets) (some n) c row back es eo en =
      rw (es, eo, en, back seed refl)
        (elim (Bool-cases (leb shards row.s)) [
          | inl out ↦ rw out
          | inr inside ↦ rw inside (answer_at offsets seed n _)
        ])

  -- What `/queue_num` answers for any row, errors included, is what anyone recomputes from the
  -- row's shard and local index and from three fields that `/status` publishes at any time, where
  -- decoding the published seed gives the stored one.
  pub queue_num-status :
      (c : Counters) (row : PreQueueItem) (policy : Option PollPolicy) (now : ℕ)
      → ((bytes : List ℕ) → c.shuffle_seed ≡ some bytes → hex_decode (hex_encode bytes) ≡ bytes)
      → queue_num hmac c row ≡ audit (status hex_encode c policy now) row.s row.l
  unfolding status
  queue_num-status c row policy now back =
      audit_parts c.shuffle_seed c.prequeue_offsets c.participant_count c row back refl refl refl
