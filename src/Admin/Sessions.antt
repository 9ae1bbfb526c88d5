-- ===== src/Admin/Sessions.antt =====
-- crates/admin/src/sessions.rs: the operators' sessions and pending logins, as rows of the `Tokens`
-- table. Of a request to the table the model says whether it is done, is refused, or is done with
-- its answer lost; what `session_id` draws is an argument, `none` where there is no randomness.
pub mod Rows
pub mod Lasting
pub mod Once
use Prim.Native.String.{String}
use text.Mathlib.Text.{◌==◌ as str_eq}
use virtual_waiting_room.Prelude.{
  ℕ, Bool, true, false, Option, none, some, List, [], ◌∷◌, ◌++◌, leb, if◌then◌else◌, saturating_add,
}
use virtual_waiting_room.Prelude.Result.{Result, ok, err}
use virtual_waiting_room.Prelude.Decimal.{to_string}
use virtual_waiting_room.Items.Attributes.{Item, n, s, get, as_s, and_then, num}
use virtual_waiting_room.Expr.{Key, oidc_session, pkce_transaction, build, value, tokens_ttl_attr}
use virtual_waiting_room.Admin.{ArrivalTime, epoch_seconds}

abbrev pub pkce_ttl_secs : ℕ
pkce_ttl_secs = 600

abbrev pub session_ttl_secs : ℕ
session_ttl_secs = 28800

-- The operation that failed and what it was told.
pub data SessionError : Type 0 where
  backend : String → String → SessionError
  rng : SessionError

pub record PendingLogin : Type 0 where
  pub pkce_verifier : String
  pub nonce : String

pub record AdminSession : Type 0 where
  pub subject : String
  pub email : String

-- The rows by their keys.
abbrev pub Rows : Type 0
Rows = List (String × Item)

unfoldable pub find_row : String → Rows → Option Item
find_row key [] = none
find_row key ((k, item) ∷ rows) = if str_eq k key then some item else find_row key rows

unfoldable pub delete_row : String → Rows → Rows
delete_row key [] = []
delete_row key ((k, item) ∷ rows) =
    if str_eq k key then delete_row key rows else (k, item) ∷ delete_row key rows

abbrev pub put_row : String → Item → Rows → Rows
put_row key item rows = (key, item) ∷ delete_row key rows

pub data Outcome : Type 0 where
  done : Outcome
  refused unheard : String → Outcome

abbrev pub answer : {A : Type 0} → Outcome → String → A → Result A SessionError
answer done operation a = ok a
answer (refused why) operation a = err (backend operation why)
answer (unheard why) operation a = err (backend operation why)

-- The rows before, and those after where the request is done.
abbrev pub changed : Outcome → Rows → Rows → Rows
changed done rows rows' = rows'
changed (refused why) rows rows' = rows
changed (unheard why) rows rows' = rows'

abbrev pub is_past : ℕ → Option ℕ → Bool
is_past now none = false
is_past now (some exp) = leb exp now

unfoldable pub is_expired : Item → ℕ → Bool
is_expired item now = is_past now (num item tokens_ttl_attr)

abbrev pub text_of : String → Item → Option String
text_of key item = and_then (get key item) as_s

abbrev pub pending_of : Option String → Option String → Option PendingLogin
pending_of none text = none
pending_of (some verifier) none = none
pending_of (some verifier) (some text) = some (record { pkce_verifier = verifier; nonce = text })

unfoldable pub pending_login_from : Option Item → ℕ → Option PendingLogin
pending_login_from none now = none
pending_login_from (some item) now =
    if is_expired item now
    then none
    else pending_of (text_of "pkce_verifier" item) (text_of "nonce" item)

abbrev pub pending_item : String → PendingLogin → ℕ → Item
pending_item state pending expires =
    build (pkce_transaction state)
    ++ ("pkce_verifier", s pending.pkce_verifier)
      ∷ ("nonce", s pending.nonce)
      ∷ (tokens_ttl_attr, n (to_string expires))
      ∷ []

unfoldable pub put_pending :
    Outcome → String → PendingLogin → ArrivalTime → Rows → Result (Unit {0}) SessionError × Rows
put_pending out state pending now rows =
    let expires = saturating_add (epoch_seconds now) pkce_ttl_secs in
    (
      answer out "put_pending" tt,
      changed out rows
          (put_row (value (pkce_transaction state)) (pending_item state pending expires) rows),
    )

unfoldable pub take_pending :
    Outcome → String → ArrivalTime → Rows → Result (Option PendingLogin) SessionError × Rows
take_pending out state now rows =
    let key = value (pkce_transaction state) in
    (
      answer out "take_pending" (pending_login_from (find_row key rows) (epoch_seconds now)),
      changed out rows (delete_row key rows),
    )

abbrev pub session_item : String → AdminSession → ℕ → Item
session_item id session expires =
    build (oidc_session id)
    ++ ("subject", s session.subject)
      ∷ ("email", s session.email)
      ∷ (tokens_ttl_attr, n (to_string expires))
      ∷ []

abbrev pub session_expires : ArrivalTime → ℕ
session_expires now = saturating_add (epoch_seconds now) session_ttl_secs

unfoldable pub create_session :
    Outcome → Option String → AdminSession → ArrivalTime → Rows → Result String SessionError × Rows
create_session out none session now rows = (err rng, rows)
create_session out (some id) session now rows = (
  answer out "create_session" id,
  changed out rows
      (put_row (value (oidc_session id)) (session_item id session (session_expires now)) rows),
)

abbrev pub session_of : Option String → Option String → Option AdminSession
session_of none text = none
session_of (some who) none = none
session_of (some who) (some text) = some (record { subject = who; email = text })

unfoldable pub session_from : Option Item → ℕ → Option AdminSession
session_from none now = none
session_from (some item) now =
    if is_expired item now then none else session_of (text_of "subject" item) (text_of "email" item)

unfoldable pub load_session :
    Outcome → String → ArrivalTime → Rows → Result (Option AdminSession) SessionError
load_session out id now rows =
    answer out "load_session"
      (session_from (find_row (value (oidc_session id)) rows) (epoch_seconds now))

unfoldable pub delete_session : Outcome → String → Rows → Result (Unit {0}) SessionError × Rows
delete_session out id rows =
    (answer out "delete_session" tt, changed out rows (delete_row (value (oidc_session id)) rows))

-- What happens to the table: the operations that change it, and the table's own removal of one row
-- that has expired.
pub data Op : Type 0 where
  puts : Outcome → String → PendingLogin → ArrivalTime → Op
  takes : Outcome → String → ArrivalTime → Op
  creates : Outcome → Option String → AdminSession → ArrivalTime → Op
  deletes : Outcome → String → Op
  sweeps : String → ℕ → Op

abbrev pub swept : String → ℕ → Option Item → Rows → Rows
swept key now none rows = rows
swept key now (some item) rows = if is_expired item now then delete_row key rows else rows

abbrev pub run : Op → Rows → Rows
run (puts out state pending now) rows = (put_pending out state pending now rows).1
run (takes out state now) rows = (take_pending out state now rows).1
run (creates out id session now) rows = (create_session out id session now rows).1
run (deletes out id) rows = (delete_session out id rows).1
run (sweeps key now) rows = swept key now (find_row key rows) rows

abbrev pub run_all : List Op → Rows → Rows
run_all [] rows = rows
run_all (op ∷ ops) rows = run_all ops (run op rows)
