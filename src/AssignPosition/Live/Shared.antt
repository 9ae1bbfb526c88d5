-- ===== src/AssignPosition/Live/Shared.antt =====
-- `process_batch` of crates/assign_position/src/lib.rs over tables that others change while it runs:
-- another batch, or the open of the event between the write of a registration and the fix-up.
pub mod Line
pub mod Batch
use Prim.Native.String.{String}
use virtual_waiting_room.Prelude.{
  ℕ, suc, ◌+◌, ◌≤◌, ◌≡◌, refl, ap, sym, ◌∙◌, inl, inr, Option, none, some, List, [], ◌∷◌, map,
  length, u64_max, arith, Bool-cases,
}
use virtual_waiting_room.Prelude.Result.{Result, ok, err}
use virtual_waiting_room.Ids.{Phase, idle, pre_queue, active, post_event, maintenance}
use virtual_waiting_room.Assembly.{Shard}
use virtual_waiting_room.Items.Attributes.{and_then}
use virtual_waiting_room.Items.Counters.{Counters}
use virtual_waiting_room.Items.Resolve.{OpenOutputs, open_outputs}
use virtual_waiting_room.Tables.{Tables}
use virtual_waiting_room.AssignPosition.{
  JoinMessage, BatchRecord, StoreError, WriteOutcome, written, duplicate, Store, PreQueueWrite,
  Accepted, classify_all, dedupe, unregistered, stragglers, position_write, straggler_write,
  prequeue_write,
}
use virtual_waiting_room.OpenEvent.{OpenValues, open_guard, open_update, write_open}
use virtual_waiting_room.AssignPosition.Batch.{
  kept_write, write_positions, after_block, process_live_batch, write_stragglers,
  after_straggler_block, claim_late, after_open, fixup_stragglers, write_prequeue, after_writes,
  after_claim, with_group, registered_ids_or_unknown, process_prequeue_batch, by_phase, by_open,
  after_load, process_valid, process_batch,
}
use virtual_waiting_room.AssignPosition.Live.{
  put_prequeue, claim_prequeue_block, registered, dynamo_store,
}
use virtual_waiting_room.AssignPosition.Live.Line.{
  line_end, HasLine, process_live_batch-HasLine, claim_late-HasLine, length-stragglers,
}
use virtual_waiting_room.AssignPosition.Live.Batch.{
  IsSameLine, HasLine-IsSameLine, put_prequeue-IsSameLine, claim_prequeue_block-IsSameLine,
  length-classify_all, length-dedupe, length-unregistered,
}

-- The tables, and what the others do to them before each request of the batch.
pub record Shared : Type 0 where
  pub tables : Tables
  pub others : List (Tables → Tables)

abbrev pub take_turn : List (Tables → Tables) → Tables → Shared
take_turn [] t = record { tables = t; others = [] }
take_turn (f ∷ others) t = record { tables = f t; others = others }

abbrev pub turn : Shared → Shared
turn w = take_turn w.others w.tables

abbrev pub lifted : {A : Type 0} → (Tables → A × Tables) → Shared → A × Shared
lifted op w = let (a, t) = op w.tables in (a, record w { tables = t })

-- Others take a turn before each request but the writes of a block that has been claimed.
abbrev pub shared_store : ℕ → Store Shared
shared_store now = record {
  claim_block = λ id n w. lifted ((dynamo_store now).claim_block id n) (turn w);
  put_position = λ p w. lifted ((dynamo_store now).put_position p) w;
  load_counters = λ id w. lifted ((dynamo_store now).load_counters id) (turn w);
  claim_prequeue_block =
      λ id shard n w. lifted ((dynamo_store now).claim_prequeue_block id shard n) (turn w);
  put_prequeue = λ p w. lifted ((dynamo_store now).put_prequeue p) (turn w);
  registered_ids = λ ids w. lifted ((dynamo_store now).registered_ids ids) (turn w);
}

-- The places are a line, its counter is not past `cap`, and before the open there is no place.
pub record IsLineTo (cap : ℕ) (t : Tables) : Type 0 where
  pub line : HasLine t
  pub low : line_end t ≤ cap
  pub clear : (c : Counters) → t.counters ≡ some c → c.shuffle_seed ≡ none → t.positions ≡ []

abbrev pub AllKeep : ℕ → List (Tables → Tables) → Type 0
AllKeep cap [] = Unit {0}
AllKeep cap (f ∷ others) = ((t : Tables) → IsLineTo cap t → IsLineTo cap (f t)) × AllKeep cap others

-- The write of an open, with the counts that it has read, is such a change.
pub write_open-IsLineTo :
    (cap : ℕ) (values : OpenValues)
    → values.participant_count ≤ cap
    → (t : Tables) → IsLineTo cap t
    → IsLineTo cap (write_open values t).1
unfolding write_open open_update open_guard
write_open-IsLineTo cap values small t h = written_over t.counters h
  where
    written_over :
        (o : Option Counters)
        → IsLineTo cap (record t { counters = o })
        → IsLineTo cap (write_open values (record t { counters = o })).1
    written_over none h = h
    written_over (some c) h = elim (Bool-cases (open_guard c)) [
      | inr shut ↦ rw shut h
      | inl free ↦
          let fresh : c.shuffle_seed ≡ none = ground (arith, free) in
          let bare : t.positions ≡ [] = h.clear c refl fresh in
          rw free (record { line = rw bare tt; low = small; clear = λ d e s. bare })
    ]

abbrev pub IsKept : ℕ → Shared → Type 0
IsKept cap w = IsLineTo cap w.tables × AllKeep cap w.others

pub take_turn-IsKept :
    (cap : ℕ) (others : List (Tables → Tables)) (t : Tables)
    → IsLineTo cap t
    → AllKeep cap others
    → IsKept cap (take_turn others t)
take_turn-IsKept cap [] t line all = (line, tt)
take_turn-IsKept cap (f ∷ others) t line all = (all.0 t line, all.1)

pub turn-IsKept : (cap : ℕ) (w : Shared) → IsKept cap w → IsKept cap (turn w)
turn-IsKept cap w kept = take_turn-IsKept cap w.others w.tables (kept.0) (kept.1)

-- A step that leaves the live line alone.
pub same-IsKept :
    (cap : ℕ) (w : Shared) (t : Tables)
    → IsSameLine w.tables t
    → IsKept cap w
    → IsKept cap (record w { tables = t })
same-IsKept cap w t same kept = (
  record {
    line = HasLine-IsSameLine w.tables t same (kept.0.line);
    low = rw (same.0) (kept.0.low);
    clear = λ c e fresh. same.1 ∙ kept.0.clear c (sym (same.0) ∙ e) fresh;
  },
  kept.1,
)
