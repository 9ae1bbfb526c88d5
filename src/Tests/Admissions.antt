-- ===== src/Tests/Admissions.antt =====
-- Runs of an admission. The digest of a secret is the secret's text, and a session is signed by its
-- request id.
use Prim.Native.String.{String}
use virtual_waiting_room.Prelude.{◌+◌, ◌≤◌, ◌≡◌, ◌↔◌, refl, none, some, List, [], ◌∷◌}
use virtual_waiting_room.Prelude.Result.{ok, heard, refused, unheard}
use virtual_waiting_room.Possession.{PossessionSecret, digest, is_digest_of}
use virtual_waiting_room.Assembly.{random}
use virtual_waiting_room.Ids.{resolve}
use virtual_waiting_room.Items.Counters.{Counters, PositionItem, issued}
use virtual_waiting_room.GenerateToken.Decide.{
  PositionRow, Grant, stored_digest, resolve_position, decide,
}
use virtual_waiting_room.GenerateToken.Decide.Laws.{IsDue, decide_grant, decide_blind}
use virtual_waiting_room.GenerateToken.Admit.{Minting, admitted_with, mint, grant_session, admit}
use virtual_waiting_room.GenerateToken.Live.{
  World, find_position, claim_rows, bump, claim_admission, record_arrival, draw, dynamo_store,
}
use virtual_waiting_room.GenerateToken.Live.Claims.{WasAdmitted}
use virtual_waiting_room.GenerateToken.Live.Faults.{Op, asks, changes, reclaims, run_all}
use virtual_waiting_room.GenerateToken.Live.Faults.Owed.{admit_counts_once}
use virtual_waiting_room.Assembly.Laws.{sum}
use virtual_waiting_room.Tests.{sample_hmac, opened_counters, opened_tables}

abbrev plain : String → String
plain text = text

abbrev secret : PossessionSecret
secret = record { text = "secret" }

abbrev serving : Counters
serving = record opened_counters { serving_counter = 8 }

abbrev row : PositionRow
row = record { position = 6; status = issued; digest = some (record { text = "secret" }) }

abbrev due : Grant
due = record { position = 6; digest = record { text = "secret" } }

decide_grant_example :
    (decide sample_hmac plain serving none (some row) secret 200 ≡ ok due)
    ↔ IsDue sample_hmac plain serving none (some row) secret 200 due
decide_grant_example = decide_grant sample_hmac plain serving none (some row) secret 200 due

abbrev thief : PossessionSecret
thief = record { text = "guess" }

decide_blind_example :
    decide sample_hmac plain serving none (some row) thief 200
    ≡ decide sample_hmac plain opened_counters none (some row) thief 900
unfolding stored_digest digest
decide_blind_example =
    decide_blind sample_hmac plain serving opened_counters none (some row) thief 200 900 (λ e. cc)

abbrev minting : Minting
minting = record {
  event_id = "event";
  session_ttl_secs = 600;
  ip_tag = λ ip. some ip;
  sign = λ session. some session.request_id;
}

abbrev live_row : PositionItem
live_row = record {
  request_id = "v";
  queue_position = 6;
  entry_time = 100;
  status = issued;
  h = some (record { text = "secret" });
  ttl = 86500;
}

abbrev world : World
world = record {
  tables = record opened_tables { counters = some serving; positions = live_row ∷ [] };
  entropy = some 123 ∷ some 7 ∷ [];
}

admitted_first :
    (admit sample_hmac plain dynamo_store minting "v" secret none 200 world).0
    ≡ ok (admitted_with 6 800 "v")
unfolding admit grant_session mint decide stored_digest resolve_position is_digest_of digest resolve
    find_position claim_admission claim_rows draw record_arrival random bump
admitted_first = refl

-- The answer to the first claim is lost, the counters change, the visitor asks twice more, and their
-- row is reclaimed before they ask again.
abbrev visits : List Op
visits =
    asks secret none 200 (unheard "timeout") heard
    ∷ changes (some serving) []
    ∷ asks secret none 300 heard heard
    ∷ asks secret (some "10.0.0.1") 400 heard (refused "throttled")
    ∷ reclaims
    ∷ asks secret none 500 heard heard
    ∷ []

admit_counts_once_example :
    (sum (run_all sample_hmac plain minting "v" visits world).tables.arrivals
      ≤ sum world.tables.arrivals + 1 + 2)
    × (WasAdmitted "v" world.tables.positions
        → sum (run_all sample_hmac plain minting "v" visits world).tables.arrivals
          ≤ sum world.tables.arrivals + 2)
admit_counts_once_example = admit_counts_once sample_hmac plain minting "v" visits world

-- A claim that is refused is counted, and the next one again.
over_counted :
    (run_all sample_hmac plain minting "v"
      (asks secret none 200 (refused "throttled") heard ∷ asks secret none 300 heard heard ∷ [])
      world).tables.arrivals
    ≡ 0 ∷ 0 ∷ 0 ∷ 1 ∷ 0 ∷ 0 ∷ 0 ∷ 1 ∷ 0 ∷ 0 ∷ []
unfolding admit grant_session mint decide stored_digest resolve_position is_digest_of digest resolve
    find_position claim_admission claim_rows draw record_arrival random bump
over_counted = refl
