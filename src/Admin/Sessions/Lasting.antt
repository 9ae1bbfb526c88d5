-- ===== src/Admin/Sessions/Lasting.antt =====
-- A row of the `Tokens` table of crates/admin/src/sessions.rs, under the requests for other rows and
-- the table's own removals.
use Prim.Native.String.{String}
use virtual_waiting_room.Prelude.{
  ℕ, ◌≤◌, ◌≡◌, ◌≢◌, ◌⊎◌, inl, inr, refl, sym, ap, ◌∙◌, true, Option, none, some, List, [], ◌∷◌, leb,
  if◌then◌else◌, arith, Bool-cases, u64_max,
}
use text.Mathlib.Text.{◌==◌ as str_eq}
use text.Mathlib.TextEquality.{eq_iff}
use virtual_waiting_room.Prelude.Result.{ok}
use virtual_waiting_room.Items.Attributes.{Item, get, num}
use virtual_waiting_room.Items.Printed.{parse_u64-to_string}
use virtual_waiting_room.Expr.{Key, oidc_session, pkce_transaction, value, build}
use virtual_waiting_room.Expr.Keys.{table, tokens, IsPlain, value-injective}
use virtual_waiting_room.Admin.{ArrivalTime, epoch_seconds}
use virtual_waiting_room.Admin.Sessions.{
  Rows, find_row, delete_row, put_row, done, is_expired, AdminSession, put_pending, take_pending,
  create_session, delete_session, session_from, session_item, session_expires, load_session, Op,
  puts, takes, creates, deletes, sweeps, swept, run, run_all,
}
use virtual_waiting_room.Admin.Sessions.Rows.{
  find-delete_row, find-delete_row_other, find-put_row, find-put_row_other, find-changed,
}

-- A request for another row, or a removal no later than `later`.
abbrev pub Spares : Key → ℕ → Op → Type 0
Spares key later (puts out state pending now) = pkce_transaction state ≢ key
Spares key later (takes out state now) = pkce_transaction state ≢ key
Spares key later (creates out none session now) = Unit {0}
Spares key later (creates out (some id) session now) = oidc_session id ≢ key
Spares key later (deletes out id) = oidc_session id ≢ key
Spares key later (sweeps swept_key now) = now ≤ later

abbrev pub AllSpare : Key → ℕ → List Op → Type 0
AllSpare key later [] = Unit {0}
AllSpare key later (op ∷ ops) = Spares key later op × AllSpare key later ops

-- The row is there, or has expired and is gone.
abbrev pub Lasts : String → Item → ℕ → ℕ → Rows → Type 0
Lasts key item expires later rows =
    (find_row key rows ≡ some item) ⊎ ((find_row key rows ≡ none) × (expires ≤ later))

module _ (key : Key) (is_token : table key ≡ tokens) (plain : IsPlain key) (item : Item)
    (expires later : ℕ) (dated : (now : ℕ) → is_expired item now ≡ leb expires now) where
  apart :
      (other : Key) → table other ≡ tokens → IsPlain other → other ≢ key → value other ≢ value key
  apart other is_other plain_other ne e =
      ne (value-injective other key (is_other ∙ sym is_token) plain_other plain e)

  same :
      (rows rows' : Rows)
      → find_row (value key) rows' ≡ find_row (value key) rows
      → Lasts (value key) item expires later rows
      → Lasts (value key) item expires later rows'
  same rows rows' e (inl there) = inl (e ∙ there)
  same rows rows' e (inr (gone, past)) = inr (e ∙ gone, past)

  swept-Lasts :
      (other : String) (now : ℕ) (row : Option Item) (rows : Rows)
      → find_row other rows ≡ row
      → now ≤ later
      → Lasts (value key) item expires later rows
      → Lasts (value key) item expires later (swept other now row rows)
  swept-Lasts other now none rows e le h = h
  swept-Lasts other now (some found) rows e le h = elim (Bool-cases (is_expired found now)) [
    | inr fresh ↦ rw fresh h
    | inl past ↦ rw past (removed past h)
  ]
    where
      is_over :
          find_row (value key) rows ≡ some found
          → is_expired found now ≡ true
          → Lasts (value key) item expires later rows
          → expires ≤ later
      is_over here past (inr (gone, over)) = over
      is_over here past (inl there) =
          let it : item ≡ found = cc (there, here) in
          let over : leb expires now ≡ true =
            sym (dated now) ∙ ap (λ i. is_expired i now) it ∙ past in
          ground (arith, le, over)

      removed :
          is_expired found now ≡ true
          → Lasts (value key) item expires later rows
          → Lasts (value key) item expires later (delete_row other rows)
      removed past h = elim (Bool-cases (str_eq other (value key))) [
        | inr differs ↦
            same rows _
              (find-delete_row_other (value key) other rows
                (λ q. absurd (cc ((eq_iff other (value key)).1 q, differs))))
              h
        | inl mine ↦
            let hit : other ≡ value key = (eq_iff other (value key)).0 mine in
            inr (
              rw hit (find-delete_row (value key) rows),
              is_over (ap (λ k. find_row k rows) (sym hit) ∙ e) past h,
            )
      ]

  run-Lasts :
      (op : Op) (rows : Rows)
      → Spares key later op
      → Lasts (value key) item expires later rows
      → Lasts (value key) item expires later (run op rows)
  unfolding put_pending take_pending create_session delete_session
  run-Lasts (puts out state pending now) rows ne h =
      same rows _
        (find-changed out (value key) rows _ (
          find-put_row_other (value key) (value (pkce_transaction state)) _ rows
            (apart (pkce_transaction state) refl tt ne)))
        h
  run-Lasts (takes out state now) rows ne h =
      same rows _
        (find-changed out (value key) rows _ (
          find-delete_row_other (value key) (value (pkce_transaction state)) rows
            (apart (pkce_transaction state) refl tt ne)))
        h
  run-Lasts (creates out none session now) rows ne h = h
  run-Lasts (creates out (some id) session now) rows ne h =
      same rows _
        (find-changed out (value key) rows _ (
          find-put_row_other (value key) (value (oidc_session id)) _ rows
            (apart (oidc_session id) refl tt ne)))
        h
  run-Lasts (deletes out id) rows ne h =
      same rows _
        (find-changed out (value key) rows _ (
          find-delete_row_other (value key) (value (oidc_session id)) rows
            (apart (oidc_session id) refl tt ne)))
        h
  run-Lasts (sweeps other now) rows le h =
      swept-Lasts other now (find_row other rows) rows refl le h

  pub run_all-Lasts :
      (ops : List Op) (rows : Rows)
      → AllSpare key later ops
      → Lasts (value key) item expires later rows
      → Lasts (value key) item expires later (run_all ops rows)
  run_all-Lasts [] rows spare h = h
  run_all-Lasts (op ∷ ops) rows spare h =
      run_all-Lasts ops (run op rows) (spare.1) (run-Lasts op rows (spare.0) h)

session_item-dated :
    (id : String) (session : AdminSession) (expires now : ℕ)
    → expires ≤ u64_max
    → is_expired (session_item id session expires) now ≡ leb expires now
unfolding is_expired num get build
session_item-dated id session expires now le = rw (parse_u64-to_string expires le) refl

session_from-session_item :
    (id : String) (session : AdminSession) (expires now : ℕ)
    → expires ≤ u64_max
    → session_from (some (session_item id session expires)) now
      ≡ (if leb expires now then none else some session)
unfolding session_from get build
session_from-session_item id session expires now le =
    rw (session_item-dated id session expires now le) refl

-- What a row gives that lasts, if it gives nothing once it has expired.
pub read-Lasts :
    {A : Type 0} (key : String) (item : Item) (expires later : ℕ) (rows : Rows)
    (read : Option Item → ℕ → Option A) (a : A)
    → read none later ≡ none
    → read (some item) later ≡ (if leb expires later then none else some a)
    → Lasts key item expires later rows
    → read (find_row key rows) later ≡ (if leb expires later then none else some a)
read-Lasts key item expires later rows read a empty full (inl there) = rw there full
read-Lasts key item expires later rows read a empty full (inr (gone, past)) =
    let over : leb expires later ≡ true = ground arith in rw (gone, over) empty

-- A session that is stored is loaded as it was stored until it expires, and from that second on it
-- is not loaded: for as long as no request stores or deletes a session of that id, whatever the
-- other sessions and logins do, whether their requests are done, refused or unheard, and whichever
-- expired rows the table removes by the time of the load.
pub create_session-lasts :
    (id : String) (session : AdminSession) (now later : ArrivalTime) (rows : Rows) (ops : List Op)
    → AllSpare (oidc_session id) (epoch_seconds later) ops
    → load_session done id later (run_all ops ((create_session done (some id) session now rows).1))
      ≡ ok (if leb (session_expires now) (epoch_seconds later) then none else some session)
unfolding load_session create_session session_from
create_session-lasts id session now later rows ops spare =
    let expires = session_expires now in
    let item = session_item id session expires in
    let small : expires ≤ u64_max = ground arith in
    let stored = put_row (value (oidc_session id)) item rows in
    let lasts : Lasts (value (oidc_session id)) item expires (epoch_seconds later)
        (run_all ops stored) =
      run_all-Lasts (oidc_session id) refl tt item expires (epoch_seconds later)
        (λ t. session_item-dated id session expires t small) ops stored spare
        (inl (find-put_row (value (oidc_session id)) item rows)) in
    ap ok (
      read-Lasts (value (oidc_session id)) item expires (epoch_seconds later) (run_all ops stored)
        session_from session refl
        (session_from-session_item id session expires (epoch_seconds later) small) lasts)
