-- ===== src/GenerateToken/Live/Faults.antt =====
-- `admit` of crates/generate_token/src/lib.rs over the live store where requests fail, and where the
-- table reclaims the row of a visitor: how often the arrival is counted.
pub mod Owed
use Prim.Native.String.{String}
use text.Mathlib.Text.{◌==◌ as str_eq}
use virtual_waiting_room.Prelude.{
  ℕ, zero, suc, ◌+◌, ◌≤◌, ◌≡◌, ◌⊎◌, inl, inr, refl, Option, none, some, List, [], ◌∷◌, arith,
  if◌then◌else◌,
}
use virtual_waiting_room.Prelude.Result.{Result, ok, err, Sent, heard, refused, unheard}
use virtual_waiting_room.Possession.{PossessionSecret}
use virtual_waiting_room.Assembly.{Shard, RandError}
use virtual_waiting_room.Assembly.Laws.{sum}
use virtual_waiting_room.Items.Counters.{Counters, PreQueueItem, PositionItem}
use virtual_waiting_room.GenerateToken.Decide.{Denied, Grant}
use virtual_waiting_room.GenerateToken.Admit.{
  AdmissionClaim, first, repeat, StoreError, Minting, Store, admit, count_arrival, or_first,
  record_on, grant_session, with_counters, finish,
}
use virtual_waiting_room.GenerateToken.Live.{
  find_position, claim_rows, bump, World, claim_admission, record_arrival, draw, draw_from,
  dynamo_store,
}
use virtual_waiting_room.GenerateToken.Live.Claims.{
  WasAdmitted, claim_rows_again, claim_rows-WasAdmitted,
}

abbrev pub sent_answer : {A : Type 0} → Sent → Result A StoreError → Result A StoreError
sent_answer heard r = r
sent_answer (refused why) r = err (record { text = why })
sent_answer (unheard why) r = err (record { text = why })

abbrev pub sent_world : Sent → World → World → World
sent_world heard w w' = w'
sent_world (refused why) w w' = w
sent_world (unheard why) w w' = w'

-- The store where the claim and the count of an arrival are each sent once, and become of it what
-- `claim` and `count` say.
abbrev pub faulty_store : Sent → Sent → Store World
faulty_store claim count = record dynamo_store {
  claim_admission = λ id position digest now w.
      let (answer, w') = claim_admission id position digest now w in
      (sent_answer claim answer, sent_world claim w w');
  record_arrival = λ shard w.
      let (answer, w') = record_arrival shard w in
      (sent_answer count answer, sent_world count w w');
}

unfoldable pub without : String → List PositionItem → List PositionItem
without id [] = []
without id (row ∷ rows) =
    if str_eq row.request_id id then without id rows else row ∷ without id rows

-- What happens to one visitor: they ask, the counters and the registrations change, or the table
-- reclaims their row.
pub data Op : Type 0 where
  asks : PossessionSecret → Option String → ℕ → Sent → Sent → Op
  changes : Option Counters → List PreQueueItem → Op
  reclaims : Op

-- A claim of which no answer is heard, and a row that is reclaimed.
abbrev pub faults_of : Op → ℕ
faults_of (asks secret viewer_ip now heard count) = 0
faults_of (asks secret viewer_ip now (refused why) count) = 1
faults_of (asks secret viewer_ip now (unheard why) count) = 1
faults_of (changes c rows) = 0
faults_of reclaims = 1

abbrev pub faults : List Op → ℕ
faults [] = 0
faults (op ∷ ops) = faults_of op + faults ops

module _ (hmac : List ℕ → List ℕ → List ℕ) (sha256_base64url : String → String) (minting : Minting)
    (request_id : String) where
  abbrev pub run : Op → World → World
  run (asks secret viewer_ip now claim count) w =
      (admit hmac sha256_base64url (faulty_store claim count) minting request_id secret viewer_ip
        now w).1
  run (changes c rows) w = record w { tables = record (w.tables) { counters = c; prequeue = rows } }
  run reclaims w = record w {
    tables = record (w.tables) { positions = without request_id w.tables.positions };
  }

  abbrev pub run_all : List Op → World → World
  run_all [] w = w
  run_all (op ∷ ops) w = run_all ops (run op w)
