-- ===== src/AssignPosition.antt =====
-- crates/assign_position/src/lib.rs: a batch of join messages from the queue becomes registrations
-- or live positions. `from_str` is the JSON parser of a package, with the deserializer of the
-- digest in it; logging is left out. A set of request ids is a list, of which only membership is
-- asked.
pub mod Batch
pub mod Failures
pub mod Closed
pub mod Live
pub mod Keeps
use Prim.Native.String.{String}
use text.Mathlib.Text.{◌==◌ as str_eq}
use virtual_waiting_room.Prelude.{
  ℕ, ◌+◌, ◌-◌, Bool, true, false, not, Option, none, some, List, [], ◌∷◌, ◌++◌, map, length,
  if◌then◌else◌, saturating_add, saturating_sub,
}
use virtual_waiting_room.Prelude.Result.{Result, ok, err}
use virtual_waiting_room.Prelude.Text.{codes}
use virtual_waiting_room.Ids.{
  Phase, idle, pre_queue, active, post_event, maintenance, is_uuid_shape,
}
use virtual_waiting_room.Possession.{SecretDigest}
use virtual_waiting_room.Assembly.{Assignment, live_join, Shard, assign}
use virtual_waiting_room.Items.Attributes.{and_then}
use virtual_waiting_room.Items.Counters.{Counters}
use virtual_waiting_room.Items.Resolve.{OpenOutputs, open_outputs}

pub record JoinMessage : Type 0 where
  pub request_id : String
  pub event_id : String
  pub h : SecretDigest

pub record BatchRecord : Type 0 where
  pub message_id : String
  pub body : String

pub record PositionWrite : Type 0 where
  pub request_id : String
  pub position : ℕ
  pub digest : SecretDigest

pub record PreQueueWrite : Type 0 where
  pub request_id : String
  pub shard : Shard
  pub local_index : ℕ
  pub digest : SecretDigest

pub data WriteOutcome : Type 0 where
  written duplicate : WriteOutcome

pub record StoreError : Type 0 where
  pub text : String

abbrev pub Action : Type 0 → Type 0 → Type 0
Action S A = S → Result A StoreError × S

pub record Store (S : Type 0) : Type 0 where
  pub claim_block : String → ℕ → Action S ℕ
  pub put_position : PositionWrite → Action S WriteOutcome
  pub load_counters : String → Action S (Option Counters)
  pub claim_prequeue_block : String → Shard → ℕ → Action S ℕ
  pub put_prequeue : PreQueueWrite → Action S WriteOutcome
  pub registered_ids : List String → Action S (List String)

pub data DropReason : Type 0 where
  bad_shape wrong_event : DropReason

pub record DropCounts : Type 0 where
  pub bad_shape_count : ℕ
  pub wrong_event_count : ℕ

pub record_drop : DropCounts → DropReason → DropCounts
record_drop drops bad_shape = record drops { bad_shape_count = drops.bad_shape_count + 1 }
record_drop drops wrong_event = record drops { wrong_event_count = drops.wrong_event_count + 1 }

unfoldable pub total : DropCounts → ℕ
total drops = drops.bad_shape_count + drops.wrong_event_count

pub data RecordVerdict : Type 0 where
  accept : JoinMessage → RecordVerdict
  reject : DropReason → RecordVerdict

-- A message id with what its record asks for.
abbrev pub Accepted : Type 0
Accepted = String × JoinMessage

module _ (from_str : String → Option JoinMessage) where
  abbrev checked : String → Option JoinMessage → RecordVerdict
  checked event_id none = reject bad_shape
  checked event_id (some msg) =
      if not (str_eq msg.event_id event_id)
      then reject wrong_event
      else if is_uuid_shape (codes msg.request_id)
      then accept msg
      else reject bad_shape

  unfoldable pub classify_record : String → String → RecordVerdict
  classify_record body event_id = checked event_id (from_str body)

  abbrev pub sorted :
      String → RecordVerdict → List Accepted × DropCounts → List Accepted × DropCounts
  sorted id (accept msg) (valid, drops) = ((id, msg) ∷ valid, drops)
  sorted id (reject reason) (valid, drops) = (valid, record_drop drops reason)

  -- The first loop of `process_batch`.
  unfoldable pub classify_all : String → List BatchRecord → List Accepted × DropCounts
  classify_all event_id [] = ([], record { bad_shape_count = 0; wrong_event_count = 0 })
  classify_all event_id (r ∷ records) =
      sorted r.message_id (classify_record r.body event_id) (classify_all event_id records)

abbrev pub message_ids : List Accepted → List String
message_ids valid = map (λ v. v.0) valid

-- `HashSet::contains`.
abbrev pub contains : List String → String → Bool
contains [] id = false
contains (x ∷ xs) id = if str_eq x id then true else contains xs id

-- The in-batch dedupe, with the ids seen so far.
unfoldable pub dedupe : List String → List Accepted → List Accepted
dedupe seen [] = []
dedupe seen ((id, msg) ∷ valid) =
    if contains seen msg.request_id
    then dedupe seen valid
    else (id, msg) ∷ dedupe (msg.request_id ∷ seen) valid

unfoldable pub unregistered : List String → List Accepted → List Accepted
unregistered registered [] = []
unregistered registered ((id, msg) ∷ valid) =
    if contains registered msg.request_id
    then unregistered registered valid
    else (id, msg) ∷ unregistered registered valid

abbrev pub is_live_join : Assignment → Bool
is_live_join (Assignment.pre_queue index) = false
is_live_join live_join = true

unfoldable pub stragglers : OpenOutputs → List PreQueueWrite → List PreQueueWrite
stragglers opened [] = []
stragglers opened (w ∷ writes) =
    if is_live_join (assign opened.offsets w.shard.index w.local_index)
    then w ∷ stragglers opened writes
    else stragglers opened writes

-- `end.saturating_sub(n).saturating_add(1)`.
abbrev pub block_start : ℕ → ℕ → ℕ
block_start end n = saturating_add (saturating_sub end n) 1

-- The write of the record at one offset of a claimed block.
abbrev pub position_write : ℕ → ℕ → Accepted → PositionWrite
position_write start offset (id, msg) = record {
  request_id = msg.request_id;
  position = saturating_add start offset;
  digest = msg.h;
}

abbrev pub straggler_write : ℕ → ℕ → PreQueueWrite → PositionWrite
straggler_write start offset w = record {
  request_id = w.request_id;
  position = saturating_add start offset;
  digest = w.digest;
}

abbrev pub prequeue_write : Shard → ℕ → ℕ → Accepted → PreQueueWrite
prequeue_write shard start offset (id, msg) = record {
  request_id = msg.request_id;
  shard = shard;
  local_index = saturating_add start offset;
  digest = msg.h;
}
