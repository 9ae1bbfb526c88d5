-- ===== src/Admin/Live/Debounce.antt =====
-- The routine actions of crates/admin/src/lib.rs over the live ports: no two within `DEBOUNCE`.
use Prim.Native.String.{String}
use virtual_waiting_room.Prelude.{ℕ, ◌+◌, ◌≤◌, ◌≡◌, refl, arith, true, Option, some, none}
use virtual_waiting_room.Prelude.Result.{Result, ok, err}
use virtual_waiting_room.Ids.{StoredControl}
use virtual_waiting_room.Admin.{
  ArrivalTime, as_millisecond, debounce_millis, AdminAction, StoreError, Action,
}
use virtual_waiting_room.Admin.Live.World.{Shared, access}
use virtual_waiting_room.Admin.Live.Table.{
  debounce_predicate, lost, update_rate, update_message, update_control, update_starts_at,
}
use virtual_waiting_room.Admin.Live.Triples.{Outcome, Triple, access_rule}

-- The item's stamp is `t` or later.
abbrev pub Since : ℕ → Option ℕ → Type 0
Since t none = ⊥
Since t (some ms) = t ≤ ms

abbrev pub IsStamped : ℕ → Shared → Type 0
IsStamped t s = Since t s.audit.last_action_epoch_ms

-- Others never set the stamp back.
abbrev pub KeepsStamp : Shared → Shared → Type 0
KeepsStamp s r = (t : ℕ) → IsStamped t s → IsStamped t r

-- What is known of the stamp before an action, and of an action that succeeds.
abbrev pub Known : Option ℕ → Shared → Type 0
Known none s = Unit
Known (some t) s = IsStamped t s

abbrev pub Apart : Option ℕ → ArrivalTime → Type 0
Apart none now = Unit
Apart (some t) now = t + debounce_millis ≤ as_millisecond now

pub Known-stable :
    (before : Option ℕ) (s r : Shared) → KeepsStamp s r → Known before s → Known before r
Known-stable none s r k p = tt
Known-stable (some t) s r k p = k t p

-- An update that succeeds only under `DEBOUNCE_PREDICATE`, and stamps the item.
abbrev pub IsDebounced : ArrivalTime → Action Shared (Unit {0}) StoreError → Type 0
IsDebounced now op =
    (s : Shared)
    → (op s).0 ≡ ok tt
    → (debounce_predicate s now ≡ true)
      × ((op s).1.audit.last_action_epoch_ms ≡ some (as_millisecond now))

apart :
    (before : Option ℕ) (now : ArrivalTime) (s : Shared)
    → Known before s
    → debounce_predicate s now ≡ true
    → Apart before now
unfolding debounce_predicate
apart none now s p e = tt
apart (some t) now s p e = ground arith

module _ (before : Option ℕ) (now : ArrivalTime) where
  abbrev pub Done : Shared → Type 0
  Done s = Apart before now × IsStamped (as_millisecond now) s

  module _ (op : Action Shared (Unit {0}) StoreError) (debounced : IsDebounced now op) where
    served :
        (s : Shared)
        → Known before s
        → (r : Result (Unit {0}) StoreError) (after : Shared)
        → ((r ≡ ok tt)
            → (debounce_predicate s now ≡ true)
              × (after.audit.last_action_epoch_ms ≡ some (as_millisecond now)))
        → Outcome (λ _. Done) (λ _. Unit) r after
    served s p (err e) after h = tt
    served s p (ok done) after h = (apart before now s p (h refl).0, rw ((h refl).1) (omega arith))

    pub write_rule : Triple KeepsStamp (Known before) (access lost op) (λ _. Done) (λ _. Unit)
    write_rule =
        access_rule lost op (Known-stable before) (λ s p. served s p _ _ (debounced s))
          (λ s p. (tt, tt))

  module _ (audit_timestamp : ArrivalTime → String) (actor : String) where
    pub update_rate-IsDebounced :
        (expected : Option ℕ) (rate : ℕ)
        → IsDebounced now (update_rate audit_timestamp expected rate actor now)
    unfolding update_rate
    update_rate-IsDebounced expected rate s e = ground arith

    pub update_message-IsDebounced :
        (message : String) → IsDebounced now (update_message audit_timestamp message actor now)
    unfolding update_message
    update_message-IsDebounced message s e = ground arith

    pub update_control-IsDebounced :
        (from to : StoredControl) (label : AdminAction)
        → IsDebounced now (update_control audit_timestamp from to label actor now)
    unfolding update_control
    update_control-IsDebounced from to label s e = ground arith

    pub update_starts_at-IsDebounced :
        (at : Option (ℕ × String)) (label : AdminAction)
        → IsDebounced now (update_starts_at audit_timestamp at label actor now)
    unfolding update_starts_at
    update_starts_at-IsDebounced none label s e = ground arith
    update_starts_at-IsDebounced (some (secs, tz)) label s e = ground arith
