-- ===== src/Room/Admits.antt =====
-- A request to crates/generate_token beside the other Lambdas.
use Prim.Native.String.{String}
use text.Mathlib.Text.{◌==◌ as str_eq}
use text.Mathlib.TextEquality.{eq_iff}
use virtual_waiting_room.Prelude.{
  ℕ, ◌≤◌, ◌≡◌, ◌≢◌, ◌⊎◌, inl, inr, refl, ap, ◌∙◌, Option, none, some, List, [], ◌∷◌, arith,
  Bool-cases, false,
}
use virtual_waiting_room.Prelude.Result.{ok}
use virtual_waiting_room.Possession.{PossessionSecret, SecretDigest}
use virtual_waiting_room.Items.Counters.{Counters, PreQueueItem, PositionItem}
use virtual_waiting_room.Items.Resolve.{at, resolve_prequeue}
use virtual_waiting_room.Items.Resolve.Laws.{IsOpened, resolve_prequeue-distinct}
use virtual_waiting_room.Tables.{Tables}
use virtual_waiting_room.GenerateToken.Admit.{Minting}
use virtual_waiting_room.GenerateToken.Live.{
  World, find_prequeue, find_position, claim_rows, created,
}
use virtual_waiting_room.GenerateToken.Live.Count.{ask}
use virtual_waiting_room.GenerateToken.Live.Change.{IsSameBut, IsClaimOf, ask-IsClaimOf}
use virtual_waiting_room.AssignPosition.Live.Line.{line_end, IsFree, IsLine}
use virtual_waiting_room.AssignPosition.Live.Register.Batch.{HasRegister}
use virtual_waiting_room.Room.{held_by}
use virtual_waiting_room.Room.Line.{All}
use virtual_waiting_room.Room.Held.{
  IsPlaced, resolve-Resolves, IsSamePlaces-IsLine, IsSamePlaces-IsPlaced, IsLine-last, All-last,
  claim_rows-IsSamePlaces, claim_rows_new,
}
use virtual_waiting_room.Room.Cases.{held-cases, unopened-held, registered-one}
use virtual_waiting_room.Room.Opens.{HasOpened-IsOpened, HasOpened-line_end}
use virtual_waiting_room.Room.Sound.{HasOpened, IsBefore, IsAfter, IsSound}

module _ (hmac : List ℕ → List ℕ → List ℕ) (counts seed : List ℕ) (c : Counters) (t : Tables)
    (kept : HasRegister t) (opened : IsOpened counts seed c) (id : String) (reg : PreQueueItem)
    (p : ℕ) (found : find_prequeue id t.prequeue ≡ some reg)
    (place : resolve_prequeue hmac c reg ≡ ok (at p)) where
  -- Nobody else has the place of a registration.
  registered-IsFree :
      (rows : List PositionItem)
      → find_position id rows ≡ none
      → All (IsPlaced hmac counts seed t.prequeue) rows
      → IsFree p rows
  unfolding find_position
  registered-IsFree [] missing all = tt
  registered-IsFree (x ∷ rows) missing all = elim (Bool-cases (str_eq x.request_id id)) [
    | inl hit ↦ absurd (let gone : some x ≡ none = rw hit at missing in ground arith)
    | inr miss ↦ (apart miss all.0, registered-IsFree rows (rw miss at missing) all.1)
  ]
    where
      apart :
          str_eq x.request_id id ≡ false
          → IsPlaced hmac counts seed t.prequeue x
          → x.queue_position ≢ p
      apart miss (inl past) e =
          let (below, s, l) =
            resolve_prequeue-distinct hmac counts seed c opened reg reg p place place in
          omega arith
      apart miss (inr (reg', found', place')) e =
          let same =
            registered-one hmac counts seed c t x.request_id id reg' reg p kept opened found' found
              (place' c opened ∙ ap (λ q. ok (at q)) e) place in
          let hit = (eq_iff x.request_id id).1 same in cc

  created-IsAfter :
      (digest : SecretDigest) (now : ℕ)
      → p ≤ line_end t
      → IsLine (line_end t) t.positions
      → find_position id t.positions ≡ none
      → All (IsPlaced hmac counts seed t.prequeue) t.positions
      → let rows = (claim_rows id p digest now t.positions).1 in
        IsLine (line_end t) rows × All (IsPlaced hmac counts seed t.prequeue) rows
  created-IsAfter digest now le line missing all =
      let row = created id p digest now in
      rw (claim_rows_new id p digest now t.positions missing) (
        IsLine-last (line_end t) t.positions row line le
            (registered-IsFree t.positions missing all),
        All-last (IsPlaced hmac counts seed t.prequeue) t.positions row all
            (inr (reg, found, resolve-Resolves hmac counts seed c reg p opened place)),
      )

-- With the same counters and registrations, and with rows that stand as they did or are those of a
-- claim, the tables are sound again.
module _ (hmac : List ℕ → List ℕ → List ℕ) (t t' : Tables) (same : IsSameBut t t')
    (sound : IsSound hmac t) where
  abbrev Era : Type 0
  Era = IsBefore t' ⊎ ((counts : List ℕ) × (seed : List ℕ) × IsAfter hmac counts seed t')

  IsSound-but : IsLine (line_end t) t'.positions → Era → IsSound hmac t'
  IsSound-but line era = record {
    ten = rw (same.2) (sound.ten);
    register = rw (same.2, same.1) (sound.register);
    line = rw (same.0) line;
    era = era;
  }

  kept-IsSound : t'.positions ≡ t.positions → IsSound hmac t'
  kept-IsSound rows = IsSound-but (rw rows (sound.line)) (by_era sound.era)
    where
      by_era :
          (IsBefore t ⊎ ((counts : List ℕ) × (seed : List ℕ) × IsAfter hmac counts seed t)) → Era
      by_era (inl (closed, nobody)) = inl (rw (same.0) closed, rows ∙ nobody)
      by_era (inr (counts, seed, (item, placed))) =
          inr (counts, seed, (rw (same.0) item, rw (same.1, rows) placed))

  module _ (id : String) (digest : SecretDigest) (now p : ℕ) (c : Counters)
      (stored : t.counters ≡ some c) (held : held_by hmac id t c ≡ ok p)
      (claimed : t'.positions ≡ (claim_rows id p digest now t.positions).1) where
    after-IsSound :
        (counts seed : List ℕ)
        → HasOpened counts seed t.counters
        → All (IsPlaced hmac counts seed t.prequeue) t.positions
        → IsSound hmac t'
    after-IsSound counts seed item placed = elim (held-cases hmac id t c p held) [
      | inl (row, found, place) ↦
          let moved = claim_rows-IsSamePlaces id p digest now t.positions row found place in
          IsSound-but
            (rw claimed (IsSamePlaces-IsLine (line_end t) t.positions _ moved (sound.line)))
            (inr (
              counts,
              seed,
              (
                rw (same.0) item,
                rw (same.1, claimed)
                    (IsSamePlaces-IsPlaced hmac counts seed t.prequeue t.positions _ moved placed),
              ),
            ))
      | inr (reg, missing, found, place) ↦
          let opened = HasOpened-IsOpened counts seed t.counters c item stored in
          let (line, all) =
            created-IsAfter hmac counts seed c t (sound.register) opened id reg p found place digest
              now
              (omega (
                arith,
                HasOpened-line_end counts seed t t.counters refl item,
                (resolve_prequeue-distinct hmac counts seed c opened reg reg p place place).0,
              ))
              (sound.line) missing placed in
          IsSound-but (rw claimed line)
            (inr (counts, seed, (rw (same.0) item, rw (same.1, claimed) all)))
    ]

    claimed-IsSound : IsSound hmac t'
    claimed-IsSound = by_era sound.era
      where
        by_era :
            (IsBefore t ⊎ ((counts : List ℕ) × (seed : List ℕ) × IsAfter hmac counts seed t))
            → IsSound hmac t'
        by_era (inl (closed, nobody)) =
            absurd (unopened-held hmac id t c p (rw stored at closed) nobody held)
        by_era (inr (counts, seed, (item, placed))) = after-IsSound counts seed item placed

-- A request for a session keeps the tables sound, whatever it is answered.
pub admit-IsSound :
    (hmac : List ℕ → List ℕ → List ℕ) (sha256_base64url : String → String) (minting : Minting)
    (id : String) (secret : PossessionSecret) (viewer_ip : Option String) (now : ℕ) (w : World)
    → IsSound hmac w.tables
    → IsSound hmac (ask hmac sha256_base64url minting id secret viewer_ip now w).1.tables
admit-IsSound hmac sha256_base64url minting id secret viewer_ip now w sound =
    let t' = (ask hmac sha256_base64url minting id secret viewer_ip now w).1.tables in
    let (same, claim) = ask-IsClaimOf hmac sha256_base64url minting id secret viewer_ip now w in
    by_claim t' same claim
  where
    by_claim :
        (t' : Tables)
        → IsSameBut w.tables t'
        → IsClaimOf hmac sha256_base64url minting id secret viewer_ip now w.tables t'.positions
        → IsSound hmac t'
    by_claim t' same (inl rows) = kept-IsSound hmac w.tables t' same sound rows
    by_claim t' same (inr (c, g, stored, held, claimed)) =
        claimed-IsSound hmac w.tables t' same sound id g.digest now g.position c stored held claimed
