-- ===== src/GenerateToken/Decide.antt =====
-- `decide` and `resolve_position` of crates/generate_token/src/lib.rs: whether a visitor is
-- admitted now, as a function of the queue's state alone.
pub mod Laws
use Prim.Native.String.{String}
use virtual_waiting_room.Prelude.{
  ℕ, Bool, true, false, Option, none, some, List, leb, if◌then◌else◌,
}
use virtual_waiting_room.Prelude.Result.{Result, ok, err, ◌>>=◌}
use virtual_waiting_room.Ids.{
  Phase, idle, pre_queue, active, post_event, maintenance, AdmissionControl, admitting, held,
  fail_open, resolve,
}
use virtual_waiting_room.Possession.{PossessionSecret, SecretDigest, is_digest_of}
use virtual_waiting_room.Items.Counters.{Counters, PreQueueItem, PositionStatus, issued, admitted}
use virtual_waiting_room.Items.Resolve.{
  ResolvedPosition, at, straggler, ResolveError, not_open, bad_shard, resolve_prequeue,
}

pub record PositionRow : Type 0 where
  pub position : ℕ
  pub status : PositionStatus
  pub digest : Option SecretDigest

pub data Denied : Type 0 where
  not_registered not_admitting event_not_open corrupt not_holder : Denied
  still_queued : ℕ → ℕ → Denied

pub record Grant : Type 0 where
  pub position : ℕ
  pub digest : SecretDigest

-- The digest that counts: that of the row which answers the position.
unfoldable pub stored_digest :
    Option PreQueueItem → Option PositionRow → Result (Option SecretDigest) Denied
stored_digest prequeue (some row) = ok row.digest
stored_digest (some row) none = ok row.h
stored_digest none none = err not_registered

abbrev pub open_gate : AdmissionControl → Result (Unit {0}) Denied
open_gate admitting = ok tt
open_gate held = err not_admitting
open_gate fail_open = err not_admitting

abbrev pub active_gate : Phase → Result (Unit {0}) Denied
active_gate active = ok tt
active_gate idle = err not_admitting
active_gate pre_queue = err not_admitting
active_gate post_event = err not_admitting
active_gate maintenance = err not_admitting

module _ (sha256_base64url : String → String) where
  abbrev pub holder : PossessionSecret → Option SecretDigest → Result SecretDigest Denied
  holder presented none = err not_holder
  holder presented (some d) =
      if is_digest_of sha256_base64url d presented then ok d else err not_holder

module _ (hmac : List ℕ → List ℕ → List ℕ) where
  abbrev pub resolved : Result ResolvedPosition ResolveError → Result ℕ Denied
  resolved (ok (at position)) = ok position
  resolved (ok straggler) = err not_registered
  resolved (err not_open) = err event_not_open
  resolved (err bad_shard) = err corrupt

  abbrev pub of_status : ℕ → PositionStatus → Result ℕ Denied
  of_status position issued = ok position
  of_status position admitted = ok position

  unfoldable pub resolve_position :
      Counters → Option PreQueueItem → Option PositionRow → Result ℕ Denied
  resolve_position counters prequeue (some row) = of_status row.position row.status
  resolve_position counters none none = err not_registered
  resolve_position counters (some row) none = resolved (resolve_prequeue hmac counters row)

  module _ (sha256_base64url : String → String) where
    unfoldable pub decide :
        Counters
        → Option PreQueueItem
        → Option PositionRow
        → PossessionSecret
        → ℕ
        → Result Grant Denied
    decide counters prequeue position_row presented now = do
      stored ← stored_digest prequeue position_row
      digest ← holder sha256_base64url presented stored
      _ ← open_gate (resolve counters.stored_control counters.fail_open_until now)
      _ ← active_gate counters.phase
      position ← resolve_position counters prequeue position_row
      if leb counters.serving_counter position
          then err (still_queued position counters.serving_counter)
          else ok (record { position = position; digest = digest })
