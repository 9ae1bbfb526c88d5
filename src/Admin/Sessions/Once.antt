-- ===== src/Admin/Sessions/Once.antt =====
-- A pending login of crates/admin/src/sessions.rs is given to one callback.
use Prim.Native.String.{String}
use text.Mathlib.Text.{◌==◌ as str_eq}
use text.Mathlib.TextEquality.{eq_iff}
use virtual_waiting_room.Prelude.{
  ℕ, ◌≤◌, ◌≡◌, ◌≢◌, inl, inr, refl, ap, ◌∙◌, Option, none, some, List, [], ◌∷◌, leb, if◌then◌else◌,
  arith, Bool-cases, u64_max, saturating_add,
}
use virtual_waiting_room.Prelude.Result.{ok}
use virtual_waiting_room.Items.Attributes.{Item, get, num}
use virtual_waiting_room.Items.Printed.{parse_u64-to_string}
use virtual_waiting_room.Expr.{oidc_session, pkce_transaction, value, build}
use virtual_waiting_room.Expr.Keys.{tagged_apart, transaction_injective}
use virtual_waiting_room.Admin.{ArrivalTime, epoch_seconds}
use virtual_waiting_room.Admin.Sessions.{
  Rows, find_row, delete_row, put_row, done, is_expired, PendingLogin, put_pending, take_pending,
  create_session, delete_session, pending_login_from, pending_item, pkce_ttl_secs, Op, puts, takes,
  creates, deletes, sweeps, swept, run, run_all,
}
use virtual_waiting_room.Admin.Sessions.Rows.{
  find-delete_row, find-delete_row_other, find-put_row, find-put_row_other, find-changed_same,
}
use virtual_waiting_room.Admin.Sessions.Lasting.{AllSpare, Lasts, run_all-Lasts, read-Lasts}

-- No login is stored under this state again.
abbrev pub NotPut : String → List Op → Type 0
NotPut state [] = Unit {0}
NotPut state (puts out other pending now ∷ ops) = (other ≢ state) × NotPut state ops
NotPut state (takes out other now ∷ ops) = NotPut state ops
NotPut state (creates out id session now ∷ ops) = NotPut state ops
NotPut state (deletes out id ∷ ops) = NotPut state ops
NotPut state (sweeps key now ∷ ops) = NotPut state ops

abbrev key_of : String → String
key_of state = value (pkce_transaction state)

find-delete_row-none :
    (key other : String) (rows : Rows)
    → find_row key rows ≡ none
    → find_row key (delete_row other rows) ≡ none
find-delete_row-none key other rows e = elim (Bool-cases (str_eq other key)) [
  | inl mine ↦
      let hit : other ≡ key = (eq_iff other key).0 mine in rw hit (find-delete_row key rows)
  | inr differs ↦
      find-delete_row_other key other rows (λ q. absurd (cc ((eq_iff other key).1 q, differs))) ∙ e
]

swept-none :
    (key other : String) (now : ℕ) (row : Option Item) (rows : Rows)
    → find_row key rows ≡ none
    → find_row key (swept other now row rows) ≡ none
swept-none key other now none rows e = e
swept-none key other now (some found) rows e = elim (Bool-cases (is_expired found now)) [
  | inl past ↦ rw past (find-delete_row-none key other rows e)
  | inr fresh ↦ rw fresh e
]

pending_apart : (state other : String) → other ≢ state → key_of other ≢ key_of state
pending_apart state other ne e = ne (transaction_injective other state e)

run-none :
    (state : String) (op : Op) (ops : List Op) (rows : Rows)
    → NotPut state (op ∷ ops)
    → find_row (key_of state) rows ≡ none
    → (find_row (key_of state) (run op rows) ≡ none) × NotPut state ops
unfolding put_pending take_pending create_session delete_session
run-none state (puts out other pending now) ops rows ne e = (
  find-changed_same out (key_of state) rows _ none e (
      find-put_row_other (key_of state) (key_of other) _ rows (pending_apart state other (ne.0))
      ∙ e),
  ne.1,
)
run-none state (takes out other now) ops rows ne e = (
  find-changed_same out (key_of state) rows _ none e
      (find-delete_row-none (key_of state) (key_of other) rows e),
  ne,
)
run-none state (creates out none session now) ops rows ne e = (e, ne)
run-none state (creates out (some id) session now) ops rows ne e = (
  find-changed_same out (key_of state) rows _ none e (
      find-put_row_other (key_of state) (value (oidc_session id)) _ rows (tagged_apart id state)
      ∙ e),
  ne,
)
run-none state (deletes out id) ops rows ne e = (
  find-changed_same out (key_of state) rows _ none e
      (find-delete_row-none (key_of state) (value (oidc_session id)) rows e),
  ne,
)
run-none state (sweeps key now) ops rows ne e =
    (swept-none (key_of state) key now (find_row key rows) rows e, ne)

run_all-none :
    (state : String) (ops : List Op) (rows : Rows)
    → NotPut state ops
    → find_row (key_of state) rows ≡ none
    → find_row (key_of state) (run_all ops rows) ≡ none
run_all-none state [] rows ne e = e
run_all-none state (op ∷ ops) rows ne e =
    let (gone, rest) = run-none state op ops rows ne e in
    run_all-none state ops (run op rows) rest gone

pending_item-dated :
    (state : String) (pending : PendingLogin) (expires now : ℕ)
    → expires ≤ u64_max
    → is_expired (pending_item state pending expires) now ≡ leb expires now
unfolding is_expired num get build
pending_item-dated state pending expires now le = rw (parse_u64-to_string expires le) refl

pending_login_from-pending_item :
    (state : String) (pending : PendingLogin) (expires now : ℕ)
    → expires ≤ u64_max
    → pending_login_from (some (pending_item state pending expires)) now
      ≡ (if leb expires now then none else some pending)
unfolding pending_login_from get build
pending_login_from-pending_item state pending expires now le =
    rw (pending_item-dated state pending expires now le) refl

abbrev pub pending_expires : ArrivalTime → ℕ
pending_expires now = saturating_add (epoch_seconds now) pkce_ttl_secs

-- The rows when a login is stored and, after `ops`, taken.
abbrev pub stored_then : String → PendingLogin → ArrivalTime → List Op → Rows → Rows
stored_then state pending now ops rows = run_all ops ((put_pending done state pending now rows).1)

-- A login that is stored is given to the first callback that takes it, as it was stored, if that
-- comes before it expires, and to no later one, for as long as none is stored under its state again:
-- whatever the other sessions and logins do meanwhile, whether their requests are done, refused or
-- unheard, whichever expired rows the table removes by the time of the first callback, and whichever
-- it removes after that.
pub take_pending-once :
    (state : String) (pending : PendingLogin) (now later again : ArrivalTime) (rows : Rows)
    (ops ops' : List Op)
    → AllSpare (pkce_transaction state) (epoch_seconds later) ops
    → NotPut state ops'
    → ((take_pending done state later (stored_then state pending now ops rows)).0
        ≡ ok (if leb (pending_expires now) (epoch_seconds later) then none else some pending))
      × ((take_pending done state again (
            run_all ops'
              ((take_pending done state later (stored_then state pending now ops rows)).1))).0
          ≡ ok none)
unfolding put_pending take_pending pending_login_from
take_pending-once state pending now later again rows ops ops' spare unput =
    let expires = pending_expires now in
    let item = pending_item state pending expires in
    let small : expires ≤ u64_max = ground arith in
    let stored = put_row (key_of state) item rows in
    let lasts : Lasts (key_of state) item expires (epoch_seconds later) (run_all ops stored) =
      run_all-Lasts (pkce_transaction state) refl tt item expires (epoch_seconds later)
        (λ t. pending_item-dated state pending expires t small) ops stored spare
        (inl (find-put_row (key_of state) item rows)) in
    let gone =
      run_all-none state ops' (delete_row (key_of state) (run_all ops stored)) unput
        (find-delete_row (key_of state) (run_all ops stored)) in
    (
      ap ok (
          read-Lasts (key_of state) item expires (epoch_seconds later) (run_all ops stored)
            pending_login_from pending refl
            (pending_login_from-pending_item state pending expires (epoch_seconds later) small)
            lasts),
      rw gone refl,
    )
