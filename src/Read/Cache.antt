-- ===== src/Read/Cache.antt =====
-- The counters cache and `parse_poll_policy` of crates/read/src/lib.rs.
use Prim.Native.String.{String}
use virtual_waiting_room.Prelude.{ℕ, ◌-◌, ◌≤◌, ◌<◌, ◌≡◌, ◌↔◌, false, Option, none, some, arith}
use virtual_waiting_room.Items.Attributes.{and_then, parse_u32}
use virtual_waiting_room.Items.Counters.{Counters}
use virtual_waiting_room.Read.{
  CountersCache, get, put, PollPolicy, policy_of, parse_poll_policy, min_interval_ms,
  max_interval_ms, max_divisor,
}

-- After a lookup made at `stored_at` is put into a cache whose lock is sound, a request at `now` is
-- answered from the cache exactly while less than the lifetime has passed, and then with that
-- lookup, whether it found the event or not.
pub get-put :
    (cache : CountersCache) (stored_at now : ℕ) (value value' : Option Counters)
    → cache.poisoned ≡ false
    → (get (put cache stored_at value) now ≡ some value')
      ↔ ((now - stored_at < cache.ttl) × (value ≡ value'))
unfolding get put
get-put cache stored_at now value value' sound = rw sound (ground arith)

-- The bounds that a client checks.
pub record IsAccepted (p : PollPolicy) : Type 0 where
  pub floor_low : min_interval_ms ≤ p.floor_ms
  pub ceiling_high : p.ceiling_ms ≤ max_interval_ms
  pub ordered : p.floor_ms ≤ p.ceiling_ms
  pub divisor_low : 1 ≤ p.divisor
  pub divisor_high : p.divisor ≤ max_divisor

policy_of_lem :
    (f c d : Option ℕ) (p : PollPolicy)
    → (policy_of f c d ≡ some p)
      ↔ ((f ≡ some p.floor_ms) × (c ≡ some p.ceiling_ms) × (d ≡ some p.divisor) × IsAccepted p)
policy_of_lem none c d p = (λ e. cc, λ h. cc)
policy_of_lem (some f) none d p = (λ e. cc, λ h. cc)
policy_of_lem (some f) (some c) none p = (λ e. cc, λ h. cc)
policy_of_lem (some f) (some c) (some d) p = (
  λ e. (
    ground arith,
    ground arith,
    ground arith,
    record {
      floor_low = ground arith;
      ceiling_high = ground arith;
      ordered = ground arith;
      divisor_low = ground arith;
      divisor_high = ground arith;
    },
  ),
  λ (ef, ec, ed, ok_p).
      let low = ok_p.floor_low in
      let high = ok_p.ceiling_high in
      let ord = ok_p.ordered in
      let dl = ok_p.divisor_low in let dh = ok_p.divisor_high in ground arith,
)

-- A policy is published exactly when all three settings are present and read as `u32`, and the
-- policy they make lies inside the bounds that a client checks, its clamp not inverted.
pub parse_poll_policy_lem :
    (f c d : Option String) (p : PollPolicy)
    → (parse_poll_policy f c d ≡ some p) ↔ (
        (and_then f parse_u32 ≡ some p.floor_ms)
        × (and_then c parse_u32 ≡ some p.ceiling_ms)
        × (and_then d parse_u32 ≡ some p.divisor)
        × IsAccepted p)
unfolding parse_poll_policy
parse_poll_policy_lem f c d p = policy_of_lem _ _ _ p
