-- ===== src/GenerateToken/Admit.antt =====
-- `admit` of crates/generate_token/src/lib.rs over its persistence port. Time, the random draw of
-- an arrival shard, the IP tag and the signing of a session come from outside: the draw is an
-- operation of the port's world, the other two are parameters.
use Prim.Native.String.{String}
use virtual_waiting_room.Prelude.{ℕ, Option, none, some, List, saturating_add}
use virtual_waiting_room.Prelude.Result.{Result, ok, err}
use virtual_waiting_room.Possession.{PossessionSecret, SecretDigest}
use virtual_waiting_room.Assembly.{Shard, RandError}
use virtual_waiting_room.Items.Attributes.{and_then}
use virtual_waiting_room.Items.Counters.{Counters, PreQueueItem}
use virtual_waiting_room.GenerateToken.Decide.{PositionRow, Denied, Grant, decide}

pub record StoreError : Type 0 where
  pub text : String

pub data AdmissionClaim : Type 0 where
  first repeat : AdmissionClaim

pub record Session : Type 0 where
  pub event_id : String
  pub request_id : String
  pub issued_at : ℕ
  pub expires_at : ℕ
  pub ip_tag : Option String

-- The key's operations stand for the key.
pub record Minting : Type 0 where
  pub event_id : String
  pub session_ttl_secs : ℕ
  pub ip_tag : String → Option String
  pub sign : Session → Option String

pub data Admission : Type 0 where
  admitted_with : ℕ → ℕ → String → Admission
  refused : Denied → Admission
  event_not_found sign_failed : Admission

abbrev pub Action : Type 0 → Type 0 → Type 0
Action S A = S → Result A StoreError × S

infixl 5 ◌>>=◌
abbrev ◌>>=◌ : {S A B : Type 0} → Action S A → (A → Action S B) → Action S B
◌>>=◌ m f world =
    let (r, world') = m world in elim r [ ok a ↦ f a world' | err e ↦ (err e, world') ]

abbrev pure : {S A : Type 0} → A → Action S A
pure a world = (ok a, world)

pub record Store (S : Type 0) : Type 0 where
  pub load_counters : Action S (Option Counters)
  pub load_prequeue : String → Action S (Option PreQueueItem)
  pub load_position : String → Action S (Option PositionRow)
  pub claim_admission : String → ℕ → SecretDigest → ℕ → Action S AdmissionClaim
  pub record_arrival : Shard → Action S (Unit {0})
  -- `Shard::random`.
  pub draw : S → Result Shard RandError × S

module _ (hmac : List ℕ → List ℕ → List ℕ) (sha256_base64url : String → String) {S : Type 0}
    (store : Store S) (minting : Minting) (request_id : String) (secret : PossessionSecret)
    (viewer_ip : Option String) (now : ℕ) where
  -- A failed claim counts the arrival.
  abbrev pub or_first : Result AdmissionClaim StoreError → AdmissionClaim
  or_first (ok claim) = claim
  or_first (err e) = first

  abbrev pub record_on : Result Shard RandError × S → S
  record_on (ok shard, world) = (store.record_arrival shard world).1
  record_on (err e, world) = world

  -- A failed draw or record is logged and no more.
  abbrev pub count_arrival : AdmissionClaim → S → S
  count_arrival first world = record_on (store.draw world)
  count_arrival repeat world = world

  abbrev pub credential_of : Grant → ℕ → Option String → Admission
  credential_of grant expires_at none = sign_failed
  credential_of grant expires_at (some credential) =
      admitted_with grant.position expires_at credential

  unfoldable pub mint : Grant → Admission
  mint grant =
      let expires_at = saturating_add now minting.session_ttl_secs in
      let session : Session = record {
        event_id = minting.event_id;
        request_id = request_id;
        issued_at = now;
        expires_at = expires_at;
        ip_tag = and_then viewer_ip minting.ip_tag;
      } in
      credential_of grant expires_at (minting.sign session)

  unfoldable pub grant_session : Grant → Action S Admission
  grant_session grant world =
      let (claim, world') =
        store.claim_admission request_id grant.position grant.digest now world in
      (ok (mint grant), count_arrival (or_first claim) world')

  abbrev pub finish : Result Grant Denied → Action S Admission
  finish (err denied) = pure (refused denied)
  finish (ok grant) = grant_session grant

  -- The pre-queue row is read only where there is no row of `Positions`.
  abbrev pub load_if_needed : Option PositionRow → Action S (Option PreQueueItem)
  load_if_needed none = store.load_prequeue request_id
  load_if_needed (some row) = pure none

  abbrev pub with_counters : Option Counters → Action S Admission
  with_counters none = pure event_not_found
  with_counters (some counters) = do
    position_row ← store.load_position request_id
    prequeue ← load_if_needed position_row
    finish (decide hmac sha256_base64url counters prequeue position_row secret now)

  unfoldable pub admit : Action S Admission
  admit = do found ← store.load_counters; with_counters found
