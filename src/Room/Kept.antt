-- ===== src/Room/Kept.antt =====
-- A place that a row of `Positions` holds, over every run of the Lambdas beside one another.
use Prim.Native.String.{String}
use text.Mathlib.Text.{◌==◌ as str_eq}
use text.Mathlib.TextEquality.{eq_iff}
use virtual_waiting_room.Prelude.{
  ℕ, ◌≡◌, inl, inr, refl, ◌∙◌, true, Option, some, List, [], ◌∷◌, ◌++◌, arith, Bool-cases,
}
use virtual_waiting_room.Prelude.Result.{ok}
use virtual_waiting_room.Possession.{PossessionSecret}
use virtual_waiting_room.Items.Counters.{Counters, PositionItem}
use virtual_waiting_room.Tables.{Tables}
use virtual_waiting_room.GenerateToken.Admit.{Minting}
use virtual_waiting_room.GenerateToken.Live.{World, find_position}
use virtual_waiting_room.GenerateToken.Live.Count.{ask}
use virtual_waiting_room.GenerateToken.Live.Change.{IsClaimOf, ask-IsClaimOf}
use virtual_waiting_room.AssignPosition.{PositionWrite}
use virtual_waiting_room.AssignPosition.Keeps.{Keeps, process_batch-keeps}
use virtual_waiting_room.AssignPosition.Live.{
  has_position, put_position, claim_block, claim_prequeue_block, dynamo_store,
}
use virtual_waiting_room.OpenEvent.Change.{IsOpenOf, open_event-IsOpenOf}
use virtual_waiting_room.Room.{
  IsFresh, Step, joined, opened, asked, operated, Reach, here, next, held_by,
}
use virtual_waiting_room.Room.Held.{IsSamePlaces-find, claim_rows-IsSamePlaces, claim_rows_new}
use virtual_waiting_room.Room.Joins.{put_prequeue_rest}
use virtual_waiting_room.Room.Cases.{held-cases, held-row}
use virtual_waiting_room.Room.Sound.{IsSound, IsFresh-IsSound}
use virtual_waiting_room.Room.Places.{Reach-IsSound}

-- The visitor's row says this place.
abbrev pub HasPlace : String → ℕ → List PositionItem → Type 0
HasPlace id p rows =
    (row : PositionItem) × (find_position id rows ≡ some row) × (row.queue_position ≡ p)

has_position-find :
    (id : String) (rows : List PositionItem) (row : PositionItem)
    → find_position id rows ≡ some row
    → has_position id rows ≡ true
unfolding find_position has_position
has_position-find id [] row e = absurd (ground arith)
has_position-find id (x ∷ rows) row e = elim (Bool-cases (str_eq x.request_id id)) [
  | inl hit ↦ rw hit refl
  | inr miss ↦ rw miss (has_position-find id rows row (rw miss at e))
]

put_position-HasPlace :
    (id : String) (p now : ℕ) (w : PositionWrite) (t : Tables)
    → HasPlace id p t.positions
    → HasPlace id p (put_position now w t).1.positions
unfolding put_position find_position
put_position-HasPlace id p now w t (row, found, place) =
    elim (Bool-cases (has_position w.request_id t.positions)) [
      | inl hit ↦ rw hit (row, found, place)
      | inr miss ↦ elim (Bool-cases (str_eq w.request_id id)) [
        | inl mine ↦
            let same : w.request_id ≡ id = (eq_iff w.request_id id).0 mine in
            let there = has_position-find id t.positions row found in
            let gone = rw same at miss in absurd (cc)
        | inr other ↦ (row, rw (miss, other) found, place)
      ]
    ]

place-Keeps :
    (id : String) (p now : ℕ)
    → Keeps (dynamo_store now) (λ t. HasPlace id p t.positions) (Unit {0}) 0
unfolding claim_block claim_prequeue_block
place-Keeps id p now = record {
  loads = λ e t j. j;
  opens = λ e t o out j q found. tt;
  claims = λ e n t k j. j;
  starts = λ e n end t j le q. ground arith;
  puts = λ w t k lt j. put_position-HasPlace id p now w t j;
  claims_prequeue = λ e shard n t j. j;
  puts_prequeue = λ w t j. rw ((put_prequeue_rest now w t).1) j;
  reads_ids = λ ids t j. j;
}

find_position-append :
    (id : String) (rows more : List PositionItem) (row : PositionItem)
    → find_position id rows ≡ some row
    → find_position id (rows ++ more) ≡ some row
unfolding find_position
find_position-append id [] more row e = absurd (ground arith)
find_position-append id (x ∷ rows) more row e = elim (Bool-cases (str_eq x.request_id id)) [
  | inl hit ↦ rw hit (rw hit at e)
  | inr miss ↦ rw miss (find_position-append id rows more row (rw miss at e))
]

module _ (hmac : List ℕ → List ℕ → List ℕ) (sha256_base64url : String → String) (id : String)
    (p : ℕ) where
  ask-HasPlace :
      (minting : Minting) (request_id : String) (secret : PossessionSecret)
      (viewer_ip : Option String) (now : ℕ) (w : World)
      → HasPlace id p w.tables.positions
      → HasPlace id p
          (ask hmac sha256_base64url minting request_id secret viewer_ip now w).1.tables.positions
  ask-HasPlace minting request_id secret viewer_ip now w (row, found, place) =
      by_claim _ (ask-IsClaimOf hmac sha256_base64url minting request_id secret viewer_ip now w).1
    where
      by_claim :
          (rows : List PositionItem)
          → IsClaimOf hmac sha256_base64url minting request_id secret viewer_ip now w.tables rows
          → HasPlace id p rows
      by_claim rows (inl same) = rw same (row, found, place)
      by_claim rows (inr (c, g, stored, held, claimed)) =
          rw claimed (elim (held-cases hmac request_id w.tables c g.position held) [
            | inl (x, theirs, at_place) ↦
                let moved =
                  claim_rows-IsSamePlaces request_id g.position g.digest now w.tables.positions x
                    theirs at_place in
                let (y, found', place') =
                  IsSamePlaces-find id w.tables.positions _ row moved found in
                (y, found', place' ∙ place)
            | inr (reg, missing, theirs, resolves) ↦
                rw (claim_rows_new request_id g.position g.digest now w.tables.positions missing)
                  (row, find_position-append id w.tables.positions _ row found, place)
          ])

  Step-HasPlace :
      {t u : Tables}
      → Step hmac sha256_base64url t u
      → IsSound hmac t
      → HasPlace id p t.positions
      → HasPlace id p u.positions
  Step-HasPlace (joined now from_str event_id shard records t inside line_fits shard_fits) sound =
      process_batch-keeps (dynamo_store now) (λ t. HasPlace id p t.positions) (Unit {0}) 0
        (place-Keeps id p now) from_str event_id shard records t
  Step-HasPlace (opened seed t) sound = by_open _ (open_event-IsOpenOf seed t (sound.ten))
    where
      by_open :
          (t' : Tables)
          → IsOpenOf seed t t'
          → HasPlace id p t.positions
          → HasPlace id p t'.positions
      by_open t' (inl same) has = rw same has
      by_open t' (inr (c, stored, fresh, fits, written)) has = rw written has
  Step-HasPlace (asked minting request_id secret viewer_ip now entropy t) sound =
      ask-HasPlace minting request_id secret viewer_ip now
        (record { tables = t; entropy = entropy })
  Step-HasPlace (operated c c' t stored same) sound = λ has. has

  Reach-HasPlace :
      {s t : Tables}
      → Reach hmac sha256_base64url s t
      → IsSound hmac s
      → HasPlace id p s.positions
      → HasPlace id p t.positions
  Reach-HasPlace here sound has = has
  Reach-HasPlace (next reach step) sound has =
      Step-HasPlace step (Reach-IsSound hmac sha256_base64url reach sound)
        (Reach-HasPlace reach sound has)

-- In a run from a fresh event, a visitor who has a row of `Positions` with a place has it from then
-- on: no later batch, open, request for a session or write of the operator or the controller takes
-- the row away or moves it, and an admission is decided on that place.
pub held_by_for_good :
    (hmac : List ℕ → List ℕ → List ℕ) (sha256_base64url : String → String) (s t u : Tables)
    (id : String) (p : ℕ)
    → IsFresh s
    → Reach hmac sha256_base64url s t
    → HasPlace id p t.positions
    → Reach hmac sha256_base64url t u
    → HasPlace id p u.positions × ((c : Counters) → held_by hmac id u c ≡ ok p)
held_by_for_good hmac sha256_base64url s t u id p fresh before has after =
    let sound = Reach-IsSound hmac sha256_base64url before (IsFresh-IsSound hmac s fresh) in
    let (row, found, place) = Reach-HasPlace hmac sha256_base64url id p after sound has in
    ((row, found, place), λ c. held-row hmac id u c p row found place)
