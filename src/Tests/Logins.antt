-- ===== src/Tests/Logins.antt =====
-- Sessions and logins of two operators on one table, and keys of two events.
use Prim.Native.String.{String}
use virtual_waiting_room.Prelude.{
  ℕ, ◌*◌, ◌≡◌, ◌≢◌, refl, ap, true, none, some, List, [], ◌∷◌, leb, if◌then◌else◌, arith,
}
use text.Mathlib.Text.{◌==◌ as str_eq}
use text.Mathlib.TextEquality.{eq_iff}
use virtual_waiting_room.Prelude.Result.{ok}
use virtual_waiting_room.Assembly.{Shard}
use virtual_waiting_room.Expr.{Key, oidc_session, prequeue_shard}
use virtual_waiting_room.Expr.Keys.{value-injective}
use virtual_waiting_room.Admin.{ArrivalTime}
use virtual_waiting_room.Admin.Sessions.{
  done, refused, unheard, AdminSession, PendingLogin, create_session, load_session, take_pending,
  Op, puts, takes, creates, deletes, sweeps, run_all,
}
use virtual_waiting_room.Admin.Sessions.Lasting.{create_session-lasts}
use virtual_waiting_room.Admin.Sessions.Once.{stored_then, take_pending-once}

abbrev id_of : Key → String
id_of (oidc_session id) = id
id_of key = ""

apart : oidc_session "b" ≢ oidc_session "a"
apart e = let hit : str_eq "b" "a" ≡ true = (eq_iff "b" "a").1 (ap id_of e) in absurd (cc (hit))

abbrev at_second : ℕ → ArrivalTime
at_second t = record { nanos = t * 1000000000 }

abbrev operator : AdminSession
operator = record { subject = "s1"; email = "one@example.org" }

abbrev other : AdminSession
other = record { subject = "s2"; email = "two@example.org" }

abbrev login : PendingLogin
login = record { pkce_verifier = "verifier"; nonce = "nonce" }

-- Another operator logs in and out, and the table looks at the session's row too early.
abbrev busy : List Op
busy =
    puts done "state" login (at_second 105)
    ∷ takes (unheard "timeout") "state" (at_second 110)
    ∷ creates done (some "b") other (at_second 112)
    ∷ creates done none other (at_second 113)
    ∷ sweeps "SESS#a" 120
    ∷ deletes (refused "throttled") "b"
    ∷ []

create_session-lasts_example :
    load_session done "a"
      (at_second 200)
      (run_all busy ((create_session done (some "a") operator (at_second 100) []).1))
    ≡ ok (if leb 28900 200 then none else some operator)
create_session-lasts_example =
    create_session-lasts "a" operator (at_second 100) (at_second 200) [] busy
      ((λ e. absurd (cc (e))), ((λ e. absurd (cc (e))), (apart, (tt, (omega arith, (apart, tt))))))

abbrev meanwhile : List Op
meanwhile = creates done (some "b") other (at_second 112) ∷ sweeps "PKCE#state" 120 ∷ []

take_pending-once_example :
    ((take_pending done "state"
        (at_second 200)
        (stored_then "state" login (at_second 100) meanwhile [])).0
      ≡ ok (if leb 700 200 then none else some login))
    × ((take_pending done "state" (at_second 210) (
          run_all meanwhile (
            (take_pending done "state"
              (at_second 200)
              (stored_then "state" login (at_second 100) meanwhile [])).1))).0
        ≡ ok none)
take_pending-once_example =
    take_pending-once "state" login (at_second 100) (at_second 200) (at_second 210) [] meanwhile
      meanwhile ((λ e. absurd (cc (e))), (omega arith, tt)) tt

abbrev third : Shard
third = record { index = 3 }

value-injective_example :
    prequeue_shard "event" third ≡ prequeue_shard "event" (record { index = 3 })
value-injective_example =
    value-injective (prequeue_shard "event" third) (prequeue_shard "event" (record { index = 3 }))
      refl (refl, omega arith) (refl, omega arith) refl
