-- ===== src/GenerateToken/Live/Faults/Owed.antt =====
-- How often the arrival of a visitor of crates/generate_token/src/lib.rs is counted.
use Prim.Native.String.{String}
use virtual_waiting_room.Prelude.{
  ℕ, zero, suc, ◌+◌, ◌≤◌, ◌≡◌, ◌⊎◌, inl, inr, refl, Option, none, some, List, [], ◌∷◌, arith,
}
use virtual_waiting_room.Prelude.Result.{Result, ok, err, Sent, heard, refused, unheard}
use virtual_waiting_room.Possession.{PossessionSecret}
use virtual_waiting_room.Assembly.{Shard, RandError}
use virtual_waiting_room.Assembly.Laws.{sum}
use virtual_waiting_room.Items.Counters.{Counters, PositionItem}
use virtual_waiting_room.GenerateToken.Decide.{Denied, Grant}
use virtual_waiting_room.GenerateToken.Admit.{
  AdmissionClaim, first, repeat, Minting, Store, admit, count_arrival, or_first, record_on,
  grant_session, with_counters, finish,
}
use virtual_waiting_room.GenerateToken.Live.{
  find_position, claim_rows, bump, World, claim_admission, record_arrival, draw, draw_from,
}
use virtual_waiting_room.GenerateToken.Live.Claims.{
  WasAdmitted, claim_rows_again, claim_rows-WasAdmitted,
}
use virtual_waiting_room.GenerateToken.Live.Faults.{
  sent_answer, sent_world, faulty_store, Op, asks, changes, reclaims, faults_of, faults, run,
  run_all,
}

sum-bump-le : (xs : List ℕ) (i : ℕ) → sum (bump xs i) ≤ sum xs + 1
unfolding bump
sum-bump-le [] i = omega arith
sum-bump-le (x ∷ xs) zero = omega arith
sum-bump-le (x ∷ xs) (suc i) = omega (arith, sum-bump-le xs i)

module _ (hmac : List ℕ → List ℕ → List ℕ) (sha256_base64url : String → String) (minting : Minting)
    (request_id : String) where
  abbrev counted : World → ℕ
  counted w = sum w.tables.arrivals

  abbrev IsMarked : World → Type 0
  IsMarked w = WasAdmitted request_id w.tables.positions

  -- At most `n` arrivals are counted, and fewer while the visitor is not marked as admitted.
  abbrev Owes : ℕ → World → Type 0
  Owes n w = (IsMarked w × (counted w ≤ n)) ⊎ (counted w + 1 ≤ n)

  module _ (secret : PossessionSecret) (viewer_ip : Option String) (now : ℕ)
      (claim count : Sent) where
    abbrev store : Store World
    store = faulty_store claim count

    -- No row is touched, and at most one arrival more is counted.
    abbrev IsCounting : World → World → Type 0
    IsCounting w w' = (counted w' ≤ counted w + 1) × (w'.tables.positions ≡ w.tables.positions)

    record_arrival-IsCounting :
        (how : Sent) (shard : Shard) (w : World)
        → IsCounting w (sent_world how w (record_arrival shard w).1)
    unfolding record_arrival
    record_arrival-IsCounting heard shard w = (sum-bump-le w.tables.arrivals shard.index, refl)
    record_arrival-IsCounting (refused why) shard w = (omega arith, refl)
    record_arrival-IsCounting (unheard why) shard w =
        (sum-bump-le w.tables.arrivals shard.index, refl)

    abbrev count_one : World → World
    count_one =
        count_arrival hmac sha256_base64url store minting request_id secret viewer_ip now first

    count_one-IsCounting : (w : World) → IsCounting w (count_one w)
    unfolding draw
    count_one-IsCounting w = drawn (draw_from w.entropy)
      where
        drawn :
            (r : Result Shard RandError × List (Option ℕ))
            → IsCounting w (
                record_on hmac sha256_base64url store minting request_id secret viewer_ip now
                  (r.0, record w { entropy = r.1 }))
        drawn (ok shard, rest) = record_arrival-IsCounting count shard (record w { entropy = rest })
        drawn (err e, rest) = (omega arith, refl)

    abbrev fault : ℕ
    fault = faults_of (asks secret viewer_ip now claim count)

    raise : (n : ℕ) (w : World) → Owes n w → Owes (n + fault) w
    raise n w (inl (marked, le)) = inl (marked, omega (arith, le))
    raise n w (inr le) = inr (omega (arith, le))

    counts-IsCounting :
        (c : AdmissionClaim) (w : World)
        → IsCounting w
            (count_arrival hmac sha256_base64url store minting request_id secret viewer_ip now c w)
    counts-IsCounting first w = count_one-IsCounting w
    counts-IsCounting repeat w = (omega arith, refl)

    -- A claim by whatever becomes of it, and the count after it.
    claimed-Owes :
        (how : Sent) (n : ℕ) (g : Grant) (w : World)
        → Owes n w
        → let (c, rows) = claim_rows request_id g.position g.digest now w.tables.positions in
          let w1 : World = record w { tables = record (w.tables) { positions = rows } } in
          Owes (n + faults_of (asks secret viewer_ip now how count)) (
            count_arrival hmac sha256_base64url store minting request_id secret viewer_ip now
              (or_first hmac sha256_base64url store minting request_id secret viewer_ip now
                (sent_answer how (ok c)))
              (sent_world how w w1))
    claimed-Owes heard n g w (inl (marked, le)) =
        rw (claim_rows_again request_id g.position g.digest now w.tables.positions marked)
          (inl (marked, omega (arith, le)))
    claimed-Owes heard n g w (inr le) =
        let (c, rows) = claim_rows request_id g.position g.digest now w.tables.positions in
        let (more, same) =
          counts-IsCounting c (record w { tables = record (w.tables) { positions = rows } }) in
        let marks = claim_rows-WasAdmitted request_id g.position g.digest now w.tables.positions in
        inl (rw same marks, omega (arith, le, more))
    claimed-Owes (refused why) n g w (inl (marked, le)) =
        let (more, same) = count_one-IsCounting w in inl (rw same marked, omega (arith, le, more))
    claimed-Owes (refused why) n g w (inr le) =
        let (more, same) = count_one-IsCounting w in inr (omega (arith, le, more))
    claimed-Owes (unheard why) n g w h =
        let (c, rows) = claim_rows request_id g.position g.digest now w.tables.positions in
        let (more, same) =
          count_one-IsCounting (record w { tables = record (w.tables) { positions = rows } }) in
        let marks = claim_rows-WasAdmitted request_id g.position g.digest now w.tables.positions in
        inl (rw same marks, bounded h more)
      where
        bounded : {m : ℕ} → Owes n w → m ≤ counted w + 1 → m ≤ n + 1
        bounded (inl (marked, le)) more = omega (arith, le, more)
        bounded (inr le) more = omega (arith, le, more)

    grant-Owes :
        (n : ℕ) (g : Grant) (w : World)
        → Owes n w
        → Owes
            (n + fault)
            (grant_session hmac sha256_base64url store minting request_id secret viewer_ip now g
              w).1
    unfolding grant_session claim_admission
    grant-Owes n g w h = claimed-Owes claim n g w h

    finish-Owes :
        (n : ℕ) (r : Result Grant Denied) (w : World)
        → Owes n w
        → Owes
            (n + fault)
            (finish hmac sha256_base64url store minting request_id secret viewer_ip now r w).1
    finish-Owes n (err denied) w h = raise n w h
    finish-Owes n (ok g) w h = grant-Owes n g w h

    ask-Owes :
        (n : ℕ) (w : World)
        → Owes n w
        → Owes
            (n + fault)
            (admit hmac sha256_base64url store minting request_id secret viewer_ip now w).1
    unfolding admit
    ask-Owes n w h = found w.tables.counters
      where
        by_row :
            (c : Counters) (o : Option PositionItem)
            → find_position request_id w.tables.positions ≡ o
            → Owes
                (n + fault)
                (with_counters hmac sha256_base64url store minting request_id secret viewer_ip now
                  (some c)
                  w).1
        by_row c none e = rw e (finish-Owes n _ w h)
        by_row c (some row) e = rw e (finish-Owes n _ w h)

        found :
            (o : Option Counters)
            → Owes
                (n + fault)
                (with_counters hmac sha256_base64url store minting request_id secret viewer_ip now o
                  w).1
        found none = raise n w h
        found (some c) = by_row c (find_position request_id w.tables.positions) refl

  run-Owes :
      (op : Op) (n : ℕ) (w : World)
      → Owes n w
      → Owes (n + faults_of op) (run hmac sha256_base64url minting request_id op w)
  run-Owes (asks secret viewer_ip now claim count) n w h =
      ask-Owes secret viewer_ip now claim count n w h
  run-Owes (changes c rows) n w (inl (marked, le)) = inl (marked, omega (arith, le))
  run-Owes (changes c rows) n w (inr le) = inr (omega (arith, le))
  run-Owes reclaims n w (inl (marked, le)) = inr (omega (arith, le))
  run-Owes reclaims n w (inr le) = inr (omega (arith, le))

  run_all-Owes :
      (ops : List Op) (n : ℕ) (w : World)
      → Owes n w
      → Owes (n + faults ops) (run_all hmac sha256_base64url minting request_id ops w)
  run_all-Owes [] n w (inl (marked, le)) = inl (marked, omega (arith, le))
  run_all-Owes [] n w (inr le) = inr (omega (arith, le))
  run_all-Owes (op ∷ ops) n w h = at_sum (
      run_all-Owes ops (n + faults_of op) (run hmac sha256_base64url minting request_id op w)
        (run-Owes op n w h))
    where
      at_sum :
          Owes (n + faults_of op + faults ops) (
            run_all hmac sha256_base64url minting request_id ops
              (run hmac sha256_base64url minting request_id op w))
          → Owes (n + faults (op ∷ ops)) (
              run_all hmac sha256_base64url minting request_id ops
                (run hmac sha256_base64url minting request_id op w))
      at_sum (inl (marked, le)) = inl (marked, omega (arith, le))
      at_sum (inr le) = inr (omega (arith, le))

  -- However often one visitor asks, with whatever secret and from whichever address, and however the
  -- counters and the registrations change meanwhile, these requests count at most one arrival, and one
  -- more for each claim of which no answer is heard and each time that the table reclaims the
  -- visitor's row. If the visitor is marked as admitted at the start, they count none but for those.
  -- The claim and the count of a request are each sent once, and either may fail or go unheard.
  pub admit_counts_once :
      (ops : List Op) (w : World)
      → (sum (run_all hmac sha256_base64url minting request_id ops w).tables.arrivals
          ≤ sum w.tables.arrivals + 1 + faults ops)
        × (WasAdmitted request_id w.tables.positions
            → sum (run_all hmac sha256_base64url minting request_id ops w).tables.arrivals
              ≤ sum w.tables.arrivals + faults ops)
  admit_counts_once ops w = (
    owed (counted w + 1) (run_all-Owes ops (counted w + 1) w (inr (omega arith))),
    λ marked. owed (counted w) (run_all-Owes ops (counted w) w (inl (marked, omega arith))),
  )
    where
      owed :
          (n : ℕ)
          → Owes (n + faults ops) (run_all hmac sha256_base64url minting request_id ops w)
          → counted (run_all hmac sha256_base64url minting request_id ops w) ≤ n + faults ops
      owed n (inl (marked, le)) = le
      owed n (inr le) = omega (arith, le)
