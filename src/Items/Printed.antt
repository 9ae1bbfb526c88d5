-- ===== src/Items/Printed.antt =====
-- A number that is written to an attribute of an item is read back.
use Prim.Native.Char.{Char, code}
use Prim.Native.String.{String}
use virtual_waiting_room.Prelude.{
  ℕ, suc, ◌+◌, ◌-◌, ◌*◌, ◌≤◌, ◌≡◌, ◌≢◌, refl, ◌∙◌, true, false, ◌==◌, some, List, [], ◌∷◌, arith,
  u64_max,
}
use virtual_waiting_room.Prelude.Text.{codes, all, is_ascii_digit}
use virtual_waiting_room.Prelude.Decimal.{digits, to_string, value-digits, all-digits, digits-cons}
use virtual_waiting_room.Items.Attributes.{digits_value, parse_unsigned, parse_u64}

digits_value-cons :
    (acc c : ℕ) (cs : List ℕ) → digits_value acc (c ∷ cs) ≡ digits_value (acc * 10 + (c - 48)) cs
unfolding digits_value
digits_value-cons acc c cs = refl

parse_unsigned_digits :
    (largest v : ℕ) (cs : List ℕ)
    → cs ≢ []
    → all is_ascii_digit cs ≡ true
    → digits_value 0 cs ≡ v
    → v ≤ largest
    → parse_unsigned largest cs ≡ some v
unfolding parse_unsigned
parse_unsigned_digits largest v [] ne good e le = absurd (ne refl)
parse_unsigned_digits largest v (c ∷ cs) ne good e le =
    let plain : (c == b'+') ≡ false = ground arith in rw (plain, good, e) (ground arith)

pub parse_u64-to_string : (v : ℕ) → v ≤ u64_max → parse_u64 (to_string v) ≡ some v
unfolding parse_u64 to_string
parse_u64-to_string v le =
    let (c, s, e) = digits-cons (suc v) v String.[] (omega arith) in
    parse_unsigned_digits u64_max v (codes (digits (suc v) v String.[])) (λ q. nonempty c s e q)
      (all-digits (suc v) v String.[] (omega arith) refl)
      (value-digits digits_value digits_value-cons (suc v) v String.[] (omega arith) ∙ value_nil) le
  where
    nonempty :
        (c : Char) (s : String)
        → digits (suc v) v String.[] ≡ String.◌∷◌ c s
        → codes (digits (suc v) v String.[]) ≢ []
    nonempty c s e q = let stuck : code c ∷ codes s ≡ [] = rw e at q in ground arith

    value_nil : digits_value v (codes String.[]) ≡ v
    value_nil = refl
