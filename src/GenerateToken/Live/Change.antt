-- ===== src/GenerateToken/Live/Change.antt =====
-- What a request to crates/generate_token changes in the tables, on every path.
use Prim.Native.String.{String}
use virtual_waiting_room.Prelude.{
  ℕ, ◌≡◌, ◌⊎◌, inl, inr, refl, sym, ◌∙◌, Option, none, some, List, [], ◌∷◌, Option-cases,
}
use virtual_waiting_room.Prelude.Result.{Result, ok, err}
use virtual_waiting_room.Possession.{PossessionSecret}
use virtual_waiting_room.Assembly.{random}
use virtual_waiting_room.Items.Counters.{Counters, PreQueueItem, PositionItem}
use virtual_waiting_room.Tables.{Tables}
use virtual_waiting_room.GenerateToken.Decide.{PositionRow, Denied, Grant, decide, resolve_position}
use virtual_waiting_room.GenerateToken.Decide.Laws.{decide_grant}
use virtual_waiting_room.GenerateToken.Admit.{
  AdmissionClaim, first, repeat, Minting, count_arrival, grant_session,
}
use virtual_waiting_room.GenerateToken.Live.{
  World, find_position, find_prequeue, position_from_item, claim_rows, claim_admission,
  record_arrival, draw, dynamo_store,
}
use virtual_waiting_room.GenerateToken.Live.Count.{ask, finished, rest, ask-rest, ask-none}

-- All but the arrivals and the rows of `Positions` is as it was.
abbrev pub IsSameBut : Tables → Tables → Type 0
IsSameBut t t' =
    (t'.counters ≡ t.counters) × (t'.prequeue ≡ t.prequeue) × (t'.shard_counts ≡ t.shard_counts)

module _ (hmac : List ℕ → List ℕ → List ℕ) (sha256_base64url : String → String) (minting : Minting)
    (request_id : String) (secret : PossessionSecret) (viewer_ip : Option String) (now : ℕ) where
  -- The rows are as they were, or the visitor claims the place that they have.
  abbrev pub IsClaimOf : Tables → List PositionItem → Type 0
  IsClaimOf t rows =
      (rows ≡ t.positions)
      ⊎ ((c : Counters) × (g : Grant) × (t.counters ≡ some c)
          × (resolve_position hmac c (find_prequeue request_id t.prequeue)
                (position_from_item (find_position request_id t.positions))
              ≡ ok g.position)
          × (rows ≡ (claim_rows request_id g.position g.digest now t.positions).1))

  counted :
      (claim : AdmissionClaim) (t : Tables) (entropy : List (Option ℕ))
      → let t' =
          (count_arrival hmac sha256_base64url dynamo_store minting request_id secret viewer_ip now
            claim
            (record { tables = t; entropy = entropy })).tables in
        IsSameBut t t' × (t'.positions ≡ t.positions)
  unfolding draw record_arrival random
  counted repeat t entropy = ((refl, refl, refl), refl)
  counted first t [] = ((refl, refl, refl), refl)
  counted first t (none ∷ entropy) = ((refl, refl, refl), refl)
  counted first t (some bytes ∷ entropy) = ((refl, refl, refl), refl)

  granted :
      (g : Grant) (w : World)
      → let t' =
          (grant_session hmac sha256_base64url dynamo_store minting request_id secret viewer_ip now
            g w).1.tables in
        IsSameBut w.tables t'
        × (t'.positions ≡ (claim_rows request_id g.position g.digest now w.tables.positions).1)
  unfolding grant_session claim_admission
  granted g w =
      let (claim, rows) = claim_rows request_id g.position g.digest now w.tables.positions in
      counted claim (record (w.tables) { positions = rows }) w.entropy

  module _ (c : Counters) (w : World) (stored : w.tables.counters ≡ some c) where
    finished-IsClaimOf :
        (pre : Option PreQueueItem) (row : Option PositionRow)
        → resolve_position hmac c pre row
          ≡ resolve_position hmac c
              (find_prequeue request_id w.tables.prequeue)
              (position_from_item (find_position request_id w.tables.positions))
        → let t' =
            (finished hmac sha256_base64url minting request_id secret viewer_ip now c
              (decide hmac sha256_base64url c pre row secret now)
              w).1.tables in
          IsSameBut w.tables t' × IsClaimOf w.tables t'.positions
    finished-IsClaimOf pre row same =
        judged (decide hmac sha256_base64url c pre row secret now) refl
      where
        judged :
            (r : Result Grant Denied)
            → decide hmac sha256_base64url c pre row secret now ≡ r
            → let t' =
                (finished hmac sha256_base64url minting request_id secret viewer_ip now c r
                  w).1.tables in
              IsSameBut w.tables t' × IsClaimOf w.tables t'.positions
        judged (err denied) e = ((refl, refl, refl), inl refl)
        judged (ok g) e =
            let (rest_same, claimed) = granted g w in
            let due = (decide_grant hmac sha256_base64url c pre row secret now g).0 e in
            (rest_same, inr (c, g, stored, sym same ∙ due.has_position, claimed))

    rest-IsClaimOf :
        (o : Option PositionItem)
        → find_position request_id w.tables.positions ≡ o
        → let t' =
            (rest hmac sha256_base64url minting request_id secret viewer_ip now c
              (position_from_item o)
              w).1.tables in
          IsSameBut w.tables t' × IsClaimOf w.tables t'.positions
    unfolding resolve_position
    rest-IsClaimOf none e =
        finished-IsClaimOf (find_prequeue request_id w.tables.prequeue) none (rw e refl)
    rest-IsClaimOf (some row) e =
        finished-IsClaimOf none (position_from_item (some row)) (rw e refl)

  -- A request changes no more than the arrivals and the rows of `Positions`, and those only by a
  -- claim of the place on which it was decided.
  pub ask-IsClaimOf :
      (w : World)
      → let t' = (ask hmac sha256_base64url minting request_id secret viewer_ip now w).1.tables in
        IsSameBut w.tables t' × IsClaimOf w.tables t'.positions
  ask-IsClaimOf w = elim (Option-cases w.tables.counters) [
    | inl missing ↦
        rw (ask-none hmac sha256_base64url minting request_id secret viewer_ip now w missing)
          ((refl, refl, refl), inl refl)
    | inr (c, stored) ↦
        rw (ask-rest hmac sha256_base64url minting request_id secret viewer_ip now c w stored)
          (rest-IsClaimOf c w stored (find_position request_id w.tables.positions) refl)
  ]
