-- ===== src/AssignPosition/Failures.antt =====
-- The failures that `process_batch` of crates/assign_position/src/lib.rs reports.
use Prim.Native.String.{String}
use virtual_waiting_room.Prelude.{◌≡◌, ◌⊎◌, Option, List, [], ◌∷◌}
use virtual_waiting_room.Prelude.Result.{Result}
use virtual_waiting_room.Items.Counters.{Counters}
use virtual_waiting_room.AssignPosition.{
  JoinMessage, BatchRecord, accept, classify_record, Accepted, message_ids,
}

abbrev pub In : String → List String → Type 0
In id [] = ⊥
In id (x ∷ xs) = (x ≡ id) ⊎ In id xs

abbrev IsPart : List Accepted → List Accepted → Type 0
IsPart some_valid valid = (id : String) → In id (message_ids some_valid) → In id (message_ids valid)

-- The record of a batch that a message id stands for, accepted.
abbrev pub HasAccepted : (String → Option JoinMessage) → String → List BatchRecord → String → Type 0
HasAccepted from_str event_id [] id = ⊥
HasAccepted from_str event_id (r ∷ records) id =
    ((msg : JoinMessage) × (r.message_id ≡ id)
      × (classify_record from_str r.body event_id ≡ accept msg))
    ⊎ HasAccepted from_str event_id records id
