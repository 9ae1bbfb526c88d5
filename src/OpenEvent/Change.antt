-- ===== src/OpenEvent/Change.antt =====
-- What an open of crates/open_event changes in the tables, on every path.
use virtual_waiting_room.Prelude.{
  ℕ, ◌≤◌, ◌≡◌, ◌≢◌, ◌⊎◌, inl, inr, refl, ap, false, Option, none, some, List, length, u64_max,
  arith, leb, Bool-cases, Option-cases,
}
use virtual_waiting_room.Prelude.Result.{ok, err}
use virtual_waiting_room.Ids.{Phase, idle, pre_queue, active, post_event, maintenance}
use virtual_waiting_room.Assembly.{shards, overflow}
use virtual_waiting_room.Assembly.Laws.{sum}
use virtual_waiting_room.Items.Counters.{Counters}
use virtual_waiting_room.Tables.{Tables}
use virtual_waiting_room.OpenEvent.{
  open_event, open_values, write_open, is_already_open, open_update, dynamo_store,
}
use virtual_waiting_room.OpenEvent.Once.{
  values_from, open_values_lem, open_event_opens, open_event_again, open_event-wrong_phase,
}

open_event_large :
    (seed : List ℕ) (t : Tables)
    → length t.shard_counts ≡ shards
    → leb (sum t.shard_counts) u64_max ≡ false
    → (open_event dynamo_store seed t).1 ≡ t
unfolding open_event
open_event_large seed t ten large =
    let failed : open_values t.shard_counts seed ≡ err overflow =
      ground (arith, open_values_lem t.shard_counts seed ten) in
    rw failed refl

open_event_missing :
    (seed : List ℕ) (t : Tables)
    → length t.shard_counts ≡ shards
    → sum t.shard_counts ≤ u64_max
    → t.counters ≡ none
    → (open_event dynamo_store seed t).1 ≡ t
unfolding open_event write_open is_already_open
open_event_missing seed t ten fits e =
    let folded : open_values t.shard_counts seed ≡ ok (values_from t.shard_counts seed) =
      ground (arith, open_values_lem t.shard_counts seed ten) in
    rw folded (ground arith)

-- An open leaves the tables as they are, or is the one that writes the item.
abbrev pub IsOpenOf : List ℕ → Tables → Tables → Type 0
IsOpenOf seed t t' =
    (t' ≡ t)
    ⊎ ((c : Counters) × (t.counters ≡ some c)
        × (c.shuffle_seed ≡ none)
        × (sum t.shard_counts ≤ u64_max)
        × (t' ≡ record t { counters = some (open_update (values_from t.shard_counts seed) c) }))

phase-cases : (p : Phase) → (p ≡ pre_queue) ⊎ (p ≢ pre_queue)
phase-cases pre_queue = inl refl
phase-cases idle = inr (λ e. cc)
phase-cases active = inr (λ e. cc)
phase-cases post_event = inr (λ e. cc)
phase-cases maintenance = inr (λ e. cc)

pub open_event-IsOpenOf :
    (seed : List ℕ) (t : Tables)
    → length t.shard_counts ≡ shards
    → IsOpenOf seed t (open_event dynamo_store seed t).1
open_event-IsOpenOf seed t ten = elim (Bool-cases (leb (sum t.shard_counts) u64_max)) [
  | inl small ↦ stored (ground arith) t.counters refl
  | inr large ↦ inl (open_event_large seed t ten large)
]
  where
    stored :
        sum t.shard_counts ≤ u64_max
        → (o : Option Counters) → t.counters ≡ o
        → IsOpenOf seed t (open_event dynamo_store seed t).1
    stored fits none e = inl (open_event_missing seed t ten fits e)
    stored fits (some c) e = elim (Option-cases c.shuffle_seed) [
      | inr (old, has) ↦ inl (ap (λ r. r.1) (open_event_again t c seed ten e old fits has))
      | inl fresh ↦ elim (phase-cases c.phase) [
        | inl phase ↦
            inr (
              c,
              e,
              fresh,
              fits,
              ap (λ r. r.1) (open_event_opens t c seed ten e fits fresh phase).0,
            )
        | inr phase ↦ inl (ap (λ r. r.1) (open_event-wrong_phase t c seed ten e fits fresh phase))
      ]
    ]
