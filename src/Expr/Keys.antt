-- ===== src/Expr/Keys.antt =====
-- Two keys of crates/wr-common/src/expr.rs in one table are one row only if they are the same.
use Prim.Native.String.{String, ◌++◌ as append}
use virtual_waiting_room.Prelude.{
  ℕ, ◌<◌, ◌≡◌, ◌≢◌, refl, sym, ap, ◌∙◌, true, List, ◌∷◌, ◌++◌, arith,
}
use virtual_waiting_room.Prelude.Text.{codes, all}
use virtual_waiting_room.Prelude.Decimal.{to_string}
use virtual_waiting_room.Assembly.{Shard, shards}
use virtual_waiting_room.Items.Attributes.{parse_u64}
use virtual_waiting_room.Items.Printed.{parse_u64-to_string}
use virtual_waiting_room.Expr.Hash.{codes-append, codes-injective, no_hash, split_hash, no_hash_end}
use virtual_waiting_room.Expr.{
  Key, event, prequeue_shard, arrivals_shard, oidc_session, pkce_transaction, prequeue, position,
  value,
}

pub data Table : Type 0 where
  counters tokens prequeue_rows position_rows : Table

-- The table that a key is sent to.
abbrev pub table : Key → Table
table (event event_id) = counters
table (prequeue_shard event_id shard) = counters
table (arrivals_shard event_id shard) = counters
table (oidc_session session_id) = tokens
table (pkce_transaction state) = tokens
table (prequeue request_id) = prequeue_rows
table (position request_id) = position_rows

abbrev pub IsPlainId : String → Type 0
IsPlainId event_id = all no_hash (codes event_id) ≡ true

-- No `#` in an event id, and a shard in range.
abbrev pub IsPlain : Key → Type 0
IsPlain (event event_id) = IsPlainId event_id
IsPlain (prequeue_shard event_id shard) = IsPlainId event_id × (shard.index < shards)
IsPlain (arrivals_shard event_id shard) = IsPlainId event_id × (shard.index < shards)
IsPlain (oidc_session session_id) = Unit {0}
IsPlain (pkce_transaction state) = Unit {0}
IsPlain (prequeue request_id) = Unit {0}
IsPlain (position request_id) = Unit {0}

event_codes : (e : String) → codes (value (event e)) ≡ 69 ∷ 86 ∷ 84 ∷ 35 ∷ codes e
unfolding value
event_codes e = codes-append "EVT#" e

sharded : (p q : ℕ) → String → Shard → List ℕ
sharded p q e shard =
    69 ∷ 86 ∷ 84 ∷ 35 ∷ (codes e ++ b'#' ∷ p ∷ q ∷ b'#' ∷ codes (to_string shard.index))

prequeue_codes :
    (e : String) (shard : Shard) → codes (value (prequeue_shard e shard)) ≡ sharded 80 81 e shard
unfolding value sharded
prequeue_codes e shard =
    rw
      (
        codes-append "EVT#" (append e (append "#PQ#" (to_string shard.index))),
        codes-append e (append "#PQ#" (to_string shard.index)),
        codes-append "#PQ#" (to_string shard.index),
      )
      refl

arrivals_codes :
    (e : String) (shard : Shard) → codes (value (arrivals_shard e shard)) ≡ sharded 65 82 e shard
unfolding value sharded
arrivals_codes e shard =
    rw
      (
        codes-append "EVT#" (append e (append "#AR#" (to_string shard.index))),
        codes-append e (append "#AR#" (to_string shard.index)),
        codes-append "#AR#" (to_string shard.index),
      )
      refl

to_string-injective : (m n : ℕ) → m < shards → n < shards → to_string m ≡ to_string n → m ≡ n
to_string-injective m n hm hn e =
    let left = parse_u64-to_string m (omega arith) in
    let right = parse_u64-to_string n (omega arith) in ground (arith, left, right, ap parse_u64 e)

shard_of_index : (s t : Shard) → s.index ≡ t.index → s ≡ t
shard_of_index s t e = ap (λ i. record { index = i }) e

sharded_inj :
    (p q p' q' : ℕ) (e e' : String) (s s' : Shard)
    → IsPlainId e × (s.index < shards)
    → IsPlainId e' × (s'.index < shards)
    → sharded p q e s ≡ sharded p' q' e' s'
    → (p ≡ p') × (e ≡ e') × (s ≡ s')
unfolding sharded
sharded_inj p q p' q' e e' s s' h h' eq =
    let (ids, rest) =
      split_hash (codes e) (codes e') (p ∷ q ∷ b'#' ∷ codes (to_string s.index))
        (p' ∷ q' ∷ b'#' ∷ codes (to_string s'.index)) (h.0) (h'.0) (ground arith) in
    let first : p ≡ p' = ground arith in
    let numbers : codes (to_string s.index) ≡ codes (to_string s'.index) = ground arith in
    (
      first,
      codes-injective e e' ids,
      shard_of_index s s' (
          to_string-injective s.index s'.index (h.1) (h'.1)
            (codes-injective (to_string s.index) (to_string s'.index) numbers)),
    )

event_not_sharded :
    (p q : ℕ) (e e' : String) (s : Shard)
    → IsPlainId e
    → 69 ∷ 86 ∷ 84 ∷ 35 ∷ codes e ≢ sharded p q e' s
unfolding sharded
event_not_sharded p q e e' s h eq =
    no_hash_end (codes e') (codes e) (p ∷ q ∷ b'#' ∷ codes (to_string s.index)) h (ground arith)

event_injective : (e e' : String) → value (event e) ≡ value (event e') → e ≡ e'
event_injective e e' eq =
    codes-injective e e' (ground (arith, event_codes e, event_codes e', ap codes eq))

pub tagged_apart : (s t : String) → value (oidc_session s) ≢ value (pkce_transaction t)
unfolding value
tagged_apart s t eq =
    let left = codes-append "SESS#" s in
    let right = codes-append "PKCE#" t in let same = ap codes eq in ground arith

session_injective : (s t : String) → value (oidc_session s) ≡ value (oidc_session t) → s ≡ t
unfolding value
session_injective s t eq =
    let left = codes-append "SESS#" s in
    let right = codes-append "SESS#" t in
    let same = ap codes eq in codes-injective s t (ground arith)

pub transaction_injective :
    (s t : String) → value (pkce_transaction s) ≡ value (pkce_transaction t) → s ≡ t
unfolding value
transaction_injective s t eq =
    let left = codes-append "PKCE#" s in
    let right = codes-append "PKCE#" t in
    let same = ap codes eq in codes-injective s t (ground arith)

prequeue_injective : (r t : String) → value (prequeue r) ≡ value (prequeue t) → r ≡ t
unfolding value
prequeue_injective r t eq = eq

position_injective : (r t : String) → value (position r) ≡ value (position t) → r ≡ t
unfolding value
position_injective r t eq = eq

-- Two keys of one table with the same value are the same key, if no event id holds a `#` and each
-- shard is in range: no two kinds of item share a row, and no two events, shards, sessions, logins
-- or visitors do.
pub value-injective :
    (k k' : Key) → table k ≡ table k' → IsPlain k → IsPlain k' → value k ≡ value k' → k ≡ k'
value-injective (event e) (event e') q h h' eq = ap event (event_injective e e' eq)
value-injective (event e) (prequeue_shard e' s) q h h' eq =
    absurd
      (event_not_sharded 80 81 e e' s h (sym (event_codes e) ∙ ap codes eq ∙ prequeue_codes e' s))
value-injective (event e) (arrivals_shard e' s) q h h' eq =
    absurd
      (event_not_sharded 65 82 e e' s h (sym (event_codes e) ∙ ap codes eq ∙ arrivals_codes e' s))
value-injective (prequeue_shard e s) (event e') q h h' eq = absurd (
    event_not_sharded 80 81 e' e s h'
      (sym (event_codes e') ∙ ap codes (sym eq) ∙ prequeue_codes e s))
value-injective (arrivals_shard e s) (event e') q h h' eq = absurd (
    event_not_sharded 65 82 e' e s h'
      (sym (event_codes e') ∙ ap codes (sym eq) ∙ arrivals_codes e s))
value-injective (prequeue_shard e s) (prequeue_shard e' s') q h h' eq =
    let (tag, ids, shards_eq) =
      sharded_inj 80 81 80 81 e e' s s' h h'
        (sym (prequeue_codes e s) ∙ ap codes eq ∙ prequeue_codes e' s') in
    rw (ids, shards_eq) refl
value-injective (arrivals_shard e s) (arrivals_shard e' s') q h h' eq =
    let (tag, ids, shards_eq) =
      sharded_inj 65 82 65 82 e e' s s' h h'
        (sym (arrivals_codes e s) ∙ ap codes eq ∙ arrivals_codes e' s') in
    rw (ids, shards_eq) refl
value-injective (prequeue_shard e s) (arrivals_shard e' s') q h h' eq =
    let (tag, ids, shards_eq) =
      sharded_inj 80 81 65 82 e e' s s' h h'
        (sym (prequeue_codes e s) ∙ ap codes eq ∙ arrivals_codes e' s') in
    absurd (omega (arith, tag))
value-injective (arrivals_shard e s) (prequeue_shard e' s') q h h' eq =
    let (tag, ids, shards_eq) =
      sharded_inj 65 82 80 81 e e' s s' h h'
        (sym (arrivals_codes e s) ∙ ap codes eq ∙ prequeue_codes e' s') in
    absurd (omega (arith, tag))
value-injective (oidc_session s) (oidc_session t) q h h' eq =
    ap oidc_session (session_injective s t eq)
value-injective (pkce_transaction s) (pkce_transaction t) q h h' eq =
    ap pkce_transaction (transaction_injective s t eq)
value-injective (oidc_session s) (pkce_transaction t) q h h' eq = absurd (tagged_apart s t eq)
value-injective (pkce_transaction s) (oidc_session t) q h h' eq = absurd (tagged_apart t s (sym eq))
value-injective (prequeue r) (prequeue r') q h h' eq = ap prequeue (prequeue_injective r r' eq)
value-injective (position r) (position r') q h h' eq = ap position (position_injective r r' eq)
value-injective k k' q h h' eq = absurd (cc (q))
