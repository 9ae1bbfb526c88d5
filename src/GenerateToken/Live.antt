-- ===== src/GenerateToken/Live.antt =====
-- `DynamoStore` of crates/generate_token/src/dynamo.rs over the tables. The world also holds what
-- the system's random generator will answer, draw by draw.
pub mod Claims
pub mod Count
pub mod Faults
pub mod Change
use Prim.Native.String.{String}
use text.Mathlib.Text.{◌==◌ as str_eq}
use virtual_waiting_room.Prelude.{
  ℕ, zero, suc, ◌+◌, Option, none, some, List, [], ◌∷◌, if◌then◌else◌, saturating_add,
}
use virtual_waiting_room.Prelude.Result.{Result, ok, err}
use virtual_waiting_room.Possession.{SecretDigest}
use virtual_waiting_room.Assembly.{Shard, RandError, rand_error, random}
use virtual_waiting_room.Items.Counters.{
  PreQueueItem, PositionItem, PositionStatus, issued, admitted,
}
use virtual_waiting_room.Tables.{Tables}
use virtual_waiting_room.GenerateToken.Decide.{PositionRow}
use virtual_waiting_room.GenerateToken.Admit.{AdmissionClaim, first, repeat, StoreError, Store}

-- `POSITION_TTL_SECS`.
abbrev pub position_ttl_secs : ℕ
position_ttl_secs = 86400

unfoldable pub find_prequeue : String → List PreQueueItem → Option PreQueueItem
find_prequeue id [] = none
find_prequeue id (row ∷ rows) = if str_eq row.r id then some row else find_prequeue id rows

unfoldable pub find_position : String → List PositionItem → Option PositionItem
find_position id [] = none
find_position id (row ∷ rows) = if str_eq row.request_id id then some row else find_position id rows

-- `position_from_item` on a row whose attributes are well-formed.
abbrev pub position_from_item : Option PositionItem → Option PositionRow
position_from_item none = none
position_from_item (some row) =
    some (record { position = row.queue_position; status = row.status; digest = row.h })

-- `if_not_exists` on the digest.
abbrev or_digest : Option SecretDigest → SecretDigest → Option SecretDigest
or_digest none d = some d
or_digest (some old) d = some old

module _ (id : String) (position : ℕ) (digest : SecretDigest) (now : ℕ) where
  -- The row that the claim creates for a pre-queue member.
  abbrev pub created : PositionItem
  created = record {
    request_id = id;
    queue_position = position;
    entry_time = now;
    status = admitted;
    h = some digest;
    ttl = saturating_add now position_ttl_secs;
  }

  abbrev pub claim_status : PositionStatus → PositionItem → AdmissionClaim × PositionItem
  claim_status admitted row = (repeat, row)
  claim_status issued row = (
    first,
    record row {
      status = admitted;
      queue_position = position;
      h = or_digest row.h digest;
      ttl = saturating_add now position_ttl_secs;
    },
  )

  -- The conditional update `attribute_not_exists(request_id) OR status = issued` on the row of
  -- `id`.
  unfoldable pub claim_rows : List PositionItem → AdmissionClaim × List PositionItem
  claim_rows [] = (first, created ∷ [])
  claim_rows (row ∷ rows) =
      let (claim, row') = claim_status row.status row in
      let (claim', rows') = claim_rows rows in
      if str_eq row.request_id id then (claim, row' ∷ rows) else (claim', row ∷ rows')

-- `ADD arrivals#<shard> :one`.
unfoldable pub bump : List ℕ → ℕ → List ℕ
bump [] i = []
bump (x ∷ xs) zero = (x + 1) ∷ xs
bump (x ∷ xs) (suc i) = x ∷ bump xs i

pub record World : Type 0 where
  pub tables : Tables
  pub entropy : List (Option ℕ)

abbrev pub draw_from : List (Option ℕ) → Result Shard RandError × List (Option ℕ)
draw_from [] = (err rand_error, [])
draw_from (bytes ∷ entropy) = (random bytes, entropy)

unfoldable pub claim_admission :
    String → ℕ → SecretDigest → ℕ → World → Result AdmissionClaim StoreError × World
claim_admission id position digest now w =
    let (claim, rows) = claim_rows id position digest now w.tables.positions in
    (ok claim, record w { tables = record (w.tables) { positions = rows } })

unfoldable pub record_arrival : Shard → World → Result (Unit {0}) StoreError × World
record_arrival shard w = (
  ok tt,
  record w { tables = record (w.tables) { arrivals = bump w.tables.arrivals shard.index } },
)

unfoldable pub draw : World → Result Shard RandError × World
draw w = let (shard, rest) = draw_from w.entropy in (shard, record w { entropy = rest })

abbrev pub dynamo_store : Store World
dynamo_store = record {
  load_counters = λ w. (ok w.tables.counters, w);
  load_prequeue = λ id w. (ok (find_prequeue id w.tables.prequeue), w);
  load_position = λ id w. (ok (position_from_item (find_position id w.tables.positions)), w);
  claim_admission = claim_admission;
  record_arrival = record_arrival;
  draw = draw;
}
