-- ===== src/GenerateToken/Live/Count.antt =====
-- `admit` of crates/generate_token/src/lib.rs over the live store: the count of arrivals.
use Prim.Native.String.{String}
use virtual_waiting_room.Prelude.{
  ℕ, ◌+◌, ◌%◌, ◌≡◌, inl, inr, refl, ap, sym, ◌∙◌, Option, none, some, List, [], ◌∷◌, arith, length,
  Option-cases,
}
use virtual_waiting_room.Prelude.Result.{Result, ok, err}
use virtual_waiting_room.Possession.{PossessionSecret}
use virtual_waiting_room.Assembly.{shards, random}
use virtual_waiting_room.Assembly.Laws.{sum}
use virtual_waiting_room.Items.Counters.{Counters, PreQueueItem, PositionItem}
use virtual_waiting_room.Tables.{Tables}
use virtual_waiting_room.GenerateToken.Decide.{PositionRow, Denied, Grant, decide}
use virtual_waiting_room.GenerateToken.Admit.{
  AdmissionClaim, first, repeat, StoreError, Minting, Admission, admitted_with, event_not_found,
  admit, count_arrival, grant_session, with_counters, finish,
}
use virtual_waiting_room.GenerateToken.Live.{
  find_position, find_prequeue, position_from_item, claim_rows, World, claim_admission,
  record_arrival, draw, dynamo_store,
}
use virtual_waiting_room.GenerateToken.Live.Claims.{
  WasAdmitted, claim_rows_again, claim_rows-WasAdmitted, claim_rows_first, sum-bump,
}

module _ (hmac : List ℕ → List ℕ → List ℕ) (sha256_base64url : String → String) (minting : Minting)
    (request_id : String) (secret : PossessionSecret) (viewer_ip : Option String) where
  abbrev pub ask : ℕ → World → Result Admission StoreError × World
  ask now = admit hmac sha256_base64url dynamo_store minting request_id secret viewer_ip now

  -- Counting an arrival touches no row.
  counted-positions :
      (now : ℕ) (claim : AdmissionClaim) (t : Tables) (entropy : List (Option ℕ))
      → (count_arrival hmac sha256_base64url dynamo_store minting request_id secret viewer_ip now
          claim
          (record { tables = t; entropy = entropy })).tables.positions
        ≡ t.positions
  unfolding draw record_arrival random
  counted-positions now repeat t entropy = refl
  counted-positions now first t [] = refl
  counted-positions now first t (none ∷ entropy) = refl
  counted-positions now first t (some bytes ∷ entropy) = refl

  module _ (now : ℕ) (c : Counters) where
    abbrev pub decided : Option PreQueueItem → Option PositionRow → Result Grant Denied
    decided pre row = decide hmac sha256_base64url c pre row secret now

    abbrev pub finished : Result Grant Denied → World → Result Admission StoreError × World
    finished = finish hmac sha256_base64url dynamo_store minting request_id secret viewer_ip now

    -- What is left to do once the row of `Positions` has been read.
    abbrev pub rest : Option PositionRow → World → Result Admission StoreError × World
    rest none w = finished (decided (find_prequeue request_id w.tables.prequeue) none) w
    rest (some row) w = finished (decided none (some row)) w

    finished_again :
        (r : Result Grant Denied) (w : World)
        → WasAdmitted request_id w.tables.positions
        → (finished r w).1.tables ≡ w.tables
    unfolding grant_session claim_admission
    finished_again (err denied) w m = refl
    finished_again (ok g) w m =
        rw (claim_rows_again request_id g.position g.digest now w.tables.positions m)

    finished-WasAdmitted :
        (position expires_at : ℕ) (credential : String) (r : Result Grant Denied) (w : World)
        → (finished r w).0 ≡ ok (admitted_with position expires_at credential)
        → WasAdmitted request_id (finished r w).1.tables.positions
    unfolding grant_session claim_admission
    finished-WasAdmitted position expires_at credential (err denied) w e = cc
    finished-WasAdmitted position expires_at credential (ok g) w e =
        let (claim, rows) = claim_rows request_id g.position g.digest now w.tables.positions in
        let kept = counted-positions now claim (record (w.tables) { positions = rows }) w.entropy in
        rw kept (claim_rows-WasAdmitted request_id g.position g.digest now w.tables.positions)

    -- A first admission, with a draw that succeeds, counts one arrival.
    finished_counts :
        (g : Grant) (w : World) (bytes : ℕ) (entropy : List (Option ℕ))
        → w.entropy ≡ some bytes ∷ entropy
        → length w.tables.arrivals ≡ shards
        → ¬ WasAdmitted request_id w.tables.positions
        → sum (finished (ok g) w).1.tables.arrivals ≡ sum w.tables.arrivals + 1
    unfolding grant_session claim_admission draw record_arrival random
    finished_counts g w bytes entropy e ten new =
        let one : (claim_rows request_id g.position g.digest now w.tables.positions).0 ≡ first =
          claim_rows_first request_id g.position g.digest now w.tables.positions new in
        rw (one, e) (sum-bump w.tables.arrivals (bytes % shards) (omega arith))

    finished_counted :
        (position expires_at : ℕ) (credential : String) (r : Result Grant Denied) (w : World)
        (bytes : ℕ) (entropy : List (Option ℕ))
        → w.entropy ≡ some bytes ∷ entropy
        → length w.tables.arrivals ≡ shards
        → ¬ WasAdmitted request_id w.tables.positions
        → (finished r w).0 ≡ ok (admitted_with position expires_at credential)
        → sum (finished r w).1.tables.arrivals ≡ sum w.tables.arrivals + 1
    finished_counted position expires_at credential (err denied) w bytes entropy drawn ten new e =
        cc
    finished_counted position expires_at credential (ok g) w bytes entropy drawn ten new e =
        finished_counts g w bytes entropy drawn ten new

    rest_counts :
        (position expires_at : ℕ) (credential : String) (row : Option PositionRow) (w : World)
        (bytes : ℕ) (entropy : List (Option ℕ))
        → w.entropy ≡ some bytes ∷ entropy
        → length w.tables.arrivals ≡ shards
        → ¬ WasAdmitted request_id w.tables.positions
        → (rest row w).0 ≡ ok (admitted_with position expires_at credential)
        → sum (rest row w).1.tables.arrivals ≡ sum w.tables.arrivals + 1
    rest_counts position expires_at credential none w =
        finished_counted position expires_at credential _ w
    rest_counts position expires_at credential (some row) w =
        finished_counted position expires_at credential _ w

    rest_again :
        (row : Option PositionRow) (w : World)
        → WasAdmitted request_id w.tables.positions
        → (rest row w).1.tables ≡ w.tables
    rest_again none w m = finished_again _ w m
    rest_again (some row) w m = finished_again _ w m

    rest-WasAdmitted :
        (position expires_at : ℕ) (credential : String) (row : Option PositionRow) (w : World)
        → (rest row w).0 ≡ ok (admitted_with position expires_at credential)
        → WasAdmitted request_id (rest row w).1.tables.positions
    rest-WasAdmitted position expires_at credential none w e =
        finished-WasAdmitted position expires_at credential _ w e
    rest-WasAdmitted position expires_at credential (some row) w e =
        finished-WasAdmitted position expires_at credential _ w e

    with_counters-rest :
        (w : World)
        → with_counters hmac sha256_base64url dynamo_store minting request_id secret viewer_ip now
            (some c)
            w
          ≡ rest (position_from_item (find_position request_id w.tables.positions)) w
    with_counters-rest w = by_row (find_position request_id w.tables.positions) refl
      where
        by_row :
            (o : Option PositionItem)
            → find_position request_id w.tables.positions ≡ o
            → with_counters hmac sha256_base64url dynamo_store minting request_id secret viewer_ip
                now
                (some c)
                w
              ≡ rest (position_from_item (find_position request_id w.tables.positions)) w
        by_row none e = rw e
        by_row (some row) e = rw e

  pub ask-rest :
      (now : ℕ) (c : Counters) (w : World)
      → w.tables.counters ≡ some c
      → ask now w ≡ rest now c (position_from_item (find_position request_id w.tables.positions)) w
  unfolding admit
  ask-rest now c w e =
      ap
        (λ o.
          with_counters hmac sha256_base64url dynamo_store minting request_id secret viewer_ip now o
            w)
        e
      ∙ with_counters-rest now c w

  pub ask-none :
      (now : ℕ) (w : World) → w.tables.counters ≡ none → ask now w ≡ (ok event_not_found, w)
  unfolding admit
  ask-none now w e =
      ap
        (λ o.
          with_counters hmac sha256_base64url dynamo_store minting request_id secret viewer_ip now o
            w)
        e

  -- Whoever is marked as admitted changes nothing by asking again, whatever they are answered.
  ask_again :
      (now : ℕ) (w : World)
      → WasAdmitted request_id w.tables.positions
      → (ask now w).1.tables ≡ w.tables
  ask_again now w m = elim (Option-cases w.tables.counters) [
    | inl e ↦ ap (λ a. a.1.tables) (ask-none now w e)
    | inr (c, e) ↦ ap (λ a. a.1.tables) (ask-rest now c w e) ∙ rest_again now c _ w m
  ]

  -- A session that is handed out leaves its visitor marked.
  ask-WasAdmitted :
      (now position expires_at : ℕ) (credential : String) (w : World)
      → (ask now w).0 ≡ ok (admitted_with position expires_at credential)
      → WasAdmitted request_id (ask now w).1.tables.positions
  ask-WasAdmitted now position expires_at credential w e = elim (Option-cases w.tables.counters) [
    | inl empty ↦ absurd (cc (ask-none now w empty))
    | inr (c, found) ↦
        let same = ask-rest now c w found in
        rw same
          (rest-WasAdmitted now c position expires_at credential _ w (sym (ap (λ a. a.0) same) ∙ e))
  ]

  -- Where the table answers every request and reclaims no row, whoever has been handed a session
  -- changes no table by asking again at any time, whatever the later calls are answered.
  admit_once :
      (now later position expires_at : ℕ) (credential : String) (w : World)
      → (ask now w).0 ≡ ok (admitted_with position expires_at credential)
      → (ask later (ask now w).1).1.tables ≡ (ask now w).1.tables
  admit_once now later position expires_at credential w e =
      ask_again later (ask now w).1 (ask-WasAdmitted now position expires_at credential w e)

  -- The first session that a visitor is handed counts one arrival, where the draw of a shard
  -- succeeds and there are ten shards.
  pub admit_counts :
      (now position expires_at : ℕ) (credential : String) (w : World) (c : Counters) (bytes : ℕ)
      (entropy : List (Option ℕ))
      → w.tables.counters ≡ some c
      → w.entropy ≡ some bytes ∷ entropy
      → length w.tables.arrivals ≡ shards
      → ¬ WasAdmitted request_id w.tables.positions
      → (ask now w).0 ≡ ok (admitted_with position expires_at credential)
      → sum (ask now w).1.tables.arrivals ≡ sum w.tables.arrivals + 1
  admit_counts now position expires_at credential w c bytes entropy found drawn ten new e =
      let same = ask-rest now c w found in
      rw same (
        rest_counts now c position expires_at credential _ w bytes entropy drawn ten new
          (sym (ap (λ a. a.0) same) ∙ e))
