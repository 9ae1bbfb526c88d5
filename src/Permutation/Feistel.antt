-- ===== src/Permutation/Feistel.antt =====
-- The Feistel network of `enc` in crates/wr-common/src/permutation/mod.rs, and `half_width`.
use Prim.Native.Nat.{bit_xor}
use native.Mathlib.Nat.{pow-suc, one-le-pow, pow-le-pow_right, mod-eq_of_lt, div-add-mod}
use native.Mathlib.Decide.{dec_lt}
use virtual_waiting_room.Prelude.{
  ℕ, zero, suc, ◌+◌, ◌-◌, ◌*◌, ◌/◌, ◌%◌, ◌^◌, ◌≤◌, ◌<◌, ◌≡◌, refl, ap, ◌∙◌, sym, List, arith, ◌==◌,
  Bool-cases, inl, inr,
}
use virtual_waiting_room.Bits.{bit_xor-lt, bit_xor_undo, bit_or_halves, bit_and_mask}
use virtual_waiting_room.Permutation.{
  rounds, leading_zeros, half_width, round_function, enc_rounds, enc,
}

pow-double : (b : ℕ) → 2 ^ (b + b) ≡ 2 ^ b * 2 ^ b
pow-double zero = refl
pow-double (suc b) =
    let e : suc b + suc b ≡ suc (suc (b + b)) = omega arith in
    rw (e, pow-suc 2 (suc (b + b)), pow-suc 2 (b + b), pow-double b, pow-suc 2 b) (omega arith)

leading_zeros-le : (w x : ℕ) → leading_zeros w x ≤ w
unfolding leading_zeros
leading_zeros-le zero x = omega arith
leading_zeros-le (suc w) x = ground (arith, leading_zeros-le w (x / 2))

-- `width - leading_zeros` digits hold the number, and one fewer do not.
leading_zeros_upper : (w x : ℕ) → x < 2 ^ w → x < 2 ^ (w - leading_zeros w x)
unfolding leading_zeros
leading_zeros_upper zero x h = h
leading_zeros_upper (suc w) x h = elim (Bool-cases (x == 0)) [
  | inl e ↦ rw e (ground (arith, one-le-pow (suc w - suc w) 2))
  | inr e ↦ rw e (
      let le = leading_zeros-le w (x / 2) in
      let s : suc w - leading_zeros w (x / 2) ≡ suc (w - leading_zeros w (x / 2)) = omega arith in
      rw s (
        omega (
          arith,
          pow-suc 2 (w - leading_zeros w (x / 2)),
          leading_zeros_upper w (x / 2) (omega (arith, pow-suc 2 w)),
        )))
]

leading_zeros-zero : (w : ℕ) → leading_zeros w 0 ≡ w
unfolding leading_zeros
leading_zeros-zero zero = refl
leading_zeros-zero (suc w) = refl

leading_zeros_lower : (w x : ℕ) → 0 < x → x < 2 ^ w → 2 ^ (w - leading_zeros w x) ≤ 2 * x
unfolding leading_zeros
leading_zeros_lower zero x pos h = absurd (omega arith)
leading_zeros_lower (suc w) zero pos h = elim pos [ ]
leading_zeros_lower (suc w) (suc zero) pos h =
    rw (leading_zeros-zero w) (let e : suc w - w ≡ 1 = omega arith in rw e (omega arith))
leading_zeros_lower (suc w) (suc (suc x)) pos h =
    let half = suc (suc x) / 2 in
    let le = leading_zeros-le w half in
    let s : suc w - leading_zeros (suc w) (suc (suc x)) ≡ suc (w - leading_zeros w half) =
      ground arith in
    rw s (
      omega (
        arith,
        pow-suc 2 (w - leading_zeros w half),
        leading_zeros_lower w half (omega arith) (omega (arith, pow-suc 2 w)),
      ))

pub half_width-le : (n : ℕ) → half_width n ≤ 32
unfolding half_width
half_width-le n = omega arith

-- The domain holds the cohort.
pub half_width_covers : (n : ℕ) → 1 < n → n ≤ 2 ^ 64 → n ≤ 2 ^ half_width n * 2 ^ half_width n
unfolding half_width
half_width_covers n big fits =
    let up = leading_zeros_upper 64 (n - 1) (omega arith) in
    let b : ℕ = (64 - leading_zeros 64 (n - 1) + 2 - 1) / 2 in
    omega (
      arith,
      pow-double b,
      pow-le-pow_right {n = 2} (omega arith) {i = 64 - leading_zeros 64 (n - 1)} {j = b + b}
          (omega arith),
    )

-- For a cohort of 2 to 2 ^ 64 the domain of the cipher is less than four times the cohort.
pub half_width_least : (n : ℕ) → 1 < n → n ≤ 2 ^ 64 → 2 ^ half_width n * 2 ^ half_width n < 4 * n
unfolding half_width
half_width_least n big fits =
    let d : ℕ = 64 - leading_zeros 64 (n - 1) in
    let b : ℕ = (d + 2 - 1) / 2 in
    omega (
      arith,
      pow-double b,
      leading_zeros_lower 64 (n - 1) (omega arith) (omega arith),
      pow-suc 2 d,
      pow-le-pow_right {n = 2} (omega arith) {i = b + b} {j = suc d} (omega arith),
    )

-- Numbers below a square, as two digits.
square_fits : (p l : ℕ) → l < p → p ≤ 2 ^ 32 → l * p < 2 ^ 64
square_fits p l h fits = grind arith

square_index : (p l r : ℕ) → l < p → r < p → l * p + r < p * p
square_index p l r hl hr = grind arith

div_lt_of_square : (p v : ℕ) → v < p * p → v / p < p
div_lt_of_square p v h = grind arith

mul_step : (p l l' : ℕ) → l < l' → l * p + p ≤ l' * p
mul_step p l l' h = grind arith

digits_same : (p l l' r r' : ℕ) → r < p → r' < p → l * p + r ≡ l' * p + r' → l ≡ l'
digits_same p l l' r r' h h' e = elim (dec_lt l l') [
  | yes below ↦ absurd (omega (arith, mul_step p l l' below))
  | no le ↦ elim (dec_lt l' l) [
    | yes above ↦ absurd (omega (arith, mul_step p l' l above))
    | no ge ↦ omega arith
  ]
]

digits_unique : (p l r l' r' : ℕ) → r < p → r' < p → l * p + r ≡ l' * p + r' → (l ≡ l') × (r ≡ r')
digits_unique p l r l' r' h h' e =
    let same = digits_same p l l' r r' h h' e in (same, omega (arith, ap (λ (t : ℕ). t * p) same))

div_mod_unique : (p v w : ℕ) → v / p ≡ w / p → v % p ≡ w % p → v ≡ w
div_mod_unique p v w q r = sym (div-add-mod v p) ∙ (rw (q, r) (div-add-mod w p))

module _ (hmac : List ℕ → List ℕ → List ℕ) (key : List ℕ) (b : ℕ) where
  round_function-lt : (round x : ℕ) → round_function hmac key round x (2 ^ b - 1) < 2 ^ b
  unfolding round_function
  round_function-lt round x = rw bit_and_mask (grind (arith, one-le-pow b 2))

  -- Both halves keep their width through the rounds.
  enc_rounds-lt :
      (rest round left right : ℕ)
      → left < 2 ^ b
      → right < 2 ^ b
      → let out = enc_rounds hmac key (2 ^ b - 1) rest round left right in
        (out.0 < 2 ^ b) × (out.1 < 2 ^ b)
  unfolding enc_rounds
  enc_rounds-lt zero round left right hl hr = (hl, hr)
  enc_rounds-lt (suc rest) round left right hl hr =
      enc_rounds-lt rest (round + 1) right _ hr
        (bit_xor-lt b left _ hl (round_function-lt round right))

  -- Whatever the round function is, each round can be undone, so the rounds separate their inputs.
  enc_rounds-injective :
      (rest round l r l' r' : ℕ)
      → l < 2 ^ b
      → r < 2 ^ b
      → l' < 2 ^ b
      → r' < 2 ^ b
      → enc_rounds hmac key (2 ^ b - 1) rest round l r
        ≡ enc_rounds hmac key (2 ^ b - 1) rest round l' r'
      → (l ≡ l') × (r ≡ r')
  unfolding enc_rounds
  enc_rounds-injective zero round l r l' r' hl hr hl' hr' e = (ap (λ p. p.0) e, ap (λ p. p.1) e)
  enc_rounds-injective (suc rest) round l r l' r' hl hr hl' hr' e =
      let f = λ (x : ℕ). round_function hmac key round x (2 ^ b - 1) in
      let ih =
        enc_rounds-injective rest (round + 1) r (bit_xor l (f r)) r' (bit_xor l' (f r')) hr
          (bit_xor-lt b l (f r) hl (round_function-lt round r)) hr'
          (bit_xor-lt b l' (f r') hl' (round_function-lt round r')) e in
      let same : f r ≡ f r' = ap f ih.0 in
      (
        sym (bit_xor_undo b l (f r) hl (round_function-lt round r))
            ∙ (rw (ih.1, same) (bit_xor_undo b l' (f r') hl' (round_function-lt round r'))),
        ih.0,
      )

  -- `enc` as arithmetic: the halves of the word, through the rounds, side by side again.
  abbrev halves : ℕ → ℕ × ℕ
  halves v = enc_rounds hmac key (2 ^ b - 1) rounds 0 (v / 2 ^ b) (v % 2 ^ b)

  halves-lt : (v : ℕ) → v < 2 ^ b * 2 ^ b → ((halves v).0 < 2 ^ b) × ((halves v).1 < 2 ^ b)
  halves-lt v h =
      let pos = one-le-pow b 2 (omega arith) in
      enc_rounds-lt rounds 0 (v / 2 ^ b) (v % 2 ^ b) (div_lt_of_square (2 ^ b) v h) (omega arith)

  enc_as_sum :
      (v : ℕ)
      → b ≤ 32
      → v < 2 ^ b * 2 ^ b
      → enc hmac key v b (2 ^ b - 1) ≡ (halves v).0 * 2 ^ b + (halves v).1
  unfolding enc
  enc_as_sum v narrow h =
      let small = halves-lt v h in
      let fits = square_fits (2 ^ b) (halves v).0 small.0 (pow-le-pow_right (omega arith) narrow) in
      rw (bit_and_mask, mod-eq_of_lt fits) (bit_or_halves b (halves v).0 (halves v).1 small.1)

  pub enc-lt : (v : ℕ) → b ≤ 32 → v < 2 ^ b * 2 ^ b → enc hmac key v b (2 ^ b - 1) < 2 ^ b * 2 ^ b
  enc-lt v narrow h =
      rw (enc_as_sum v narrow h) (
        let small = halves-lt v h in square_index (2 ^ b) (halves v).0 (halves v).1 small.0 small.1)

  -- `enc` is injective on the domain, whatever HMAC answers.
  pub enc-injective :
      (v w : ℕ)
      → b ≤ 32
      → v < 2 ^ b * 2 ^ b
      → w < 2 ^ b * 2 ^ b
      → enc hmac key v b (2 ^ b - 1) ≡ enc hmac key w b (2 ^ b - 1)
      → v ≡ w
  enc-injective v w narrow hv hw e =
      let p = 2 ^ b in
      let sv = halves-lt v hv in
      let sw = halves-lt w hw in
      let sums : (halves v).0 * p + (halves v).1 ≡ (halves w).0 * p + (halves w).1 =
        sym (enc_as_sum v narrow hv) ∙ e ∙ enc_as_sum w narrow hw in
      let (e0, e1) =
        digits_unique p (halves v).0 (halves v).1 (halves w).0 (halves w).1 sv.1 sw.1 sums in
      let pos = one-le-pow b 2 (omega arith) in
      let (q, r) =
        enc_rounds-injective rounds 0 (v / p) (v % p) (w / p) (w % p) (div_lt_of_square p v hv)
          (omega arith) (div_lt_of_square p w hw) (omega arith) (λ i. (e0 i, e1 i)) in
      div_mod_unique p v w q r
