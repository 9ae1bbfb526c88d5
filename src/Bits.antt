-- ===== src/Bits.antt =====
-- The operators `^`, `|` and `&` of the machine words, at every width: what the permutation of
-- crates/wr-common/src/permutation/mod.rs computes with. Each law goes up one binary digit at a
-- time.
use Prim.Native.Nat.{
  digits, bitwise, differ, bit_and, bit_or, bit_xor, bit_and-bitwise, bit_or-bitwise,
  bit_xor-bitwise,
}
use native.Mathlib.Nat.{pow-suc, one-le-pow}
use virtual_waiting_room.Prelude.{
  ℕ, zero, suc, ◌+◌, ◌-◌, ◌*◌, ◌/◌, ◌%◌, ◌^◌, ◌≤◌, ◌<◌, min, max, ◌≡◌, refl, ap, arith,
}

module _ (z : ℕ → ℕ) (f : ℕ → ℕ → ℕ) where
  -- The count of digits to go is immaterial once it reaches the first number.
  digits_count : (m n a b : ℕ) → a ≤ m → a ≤ n → digits z f m a b ≡ digits z f n a b
  digits_count zero zero a b below_m below_n = refl
  digits_count zero (suc n) zero b below_m below_n = refl
  digits_count zero (suc n) (suc a) b below_m below_n = elim below_m [ ]
  digits_count (suc m) zero zero b below_m below_n = refl
  digits_count (suc m) zero (suc a) b below_m below_n = elim below_n [ ]
  digits_count (suc m) (suc n) zero b below_m below_n = refl
  digits_count (suc m) (suc n) (suc a) b below_m below_n =
      ap (λ h. h * 2 + f (suc a % 2) (b % 2))
        (digits_count m n (suc a / 2) (b / 2) (omega arith) (omega arith))

  lowest_digit :
      (a b : ℕ)
      → bitwise z f (suc a) b ≡ bitwise z f (suc a / 2) (b / 2) * 2 + f (suc a % 2) (b % 2)
  lowest_digit a b =
      ap (λ h. h * 2 + f (suc a % 2) (b % 2))
        (digits_count a (suc a / 2) (suc a / 2) (b / 2) (omega arith) (omega arith))

bit_xor_digit : (a b : ℕ) → bit_xor a b ≡ bit_xor (a / 2) (b / 2) * 2 + differ (a % 2) (b % 2)
bit_xor_digit zero b = simp bit_xor-bitwise (omega arith)
bit_xor_digit (suc a) b = simp bit_xor-bitwise (lowest_digit (λ y. y) differ a b)

bit_or_digit : (a b : ℕ) → bit_or a b ≡ bit_or (a / 2) (b / 2) * 2 + max (a % 2) (b % 2)
bit_or_digit zero b = simp bit_or-bitwise (omega arith)
bit_or_digit (suc a) b = simp bit_or-bitwise (lowest_digit (λ y. y) max a b)

bit_and_digit : (a b : ℕ) → bit_and a b ≡ bit_and (a / 2) (b / 2) * 2 + min (a % 2) (b % 2)
bit_and_digit zero b = simp bit_and-bitwise (omega arith)
bit_and_digit (suc a) b = simp bit_and-bitwise (lowest_digit (λ y. 0) min a b)

differ_bits : (p q : ℕ) → p < 2 → q < 2 → (differ p q < 2) × (differ (differ p q) q ≡ p)
differ_bits zero zero hp hq = omega arith
differ_bits zero (suc zero) hp hq = omega arith
differ_bits (suc zero) zero hp hq = omega arith
differ_bits (suc zero) (suc zero) hp hq = omega arith
differ_bits (suc (suc p)) q hp hq = absurd (omega arith)
differ_bits zero (suc (suc q)) hp hq = absurd (omega arith)
differ_bits (suc zero) (suc (suc q)) hp hq = absurd (omega arith)

-- `^` stays within the width of its arguments.
pub bit_xor-lt : (k a b : ℕ) → a < 2 ^ k → b < 2 ^ k → bit_xor a b < 2 ^ k
bit_xor-lt zero zero zero ha hb = omega arith
bit_xor-lt zero (suc a) b ha hb = absurd (omega arith)
bit_xor-lt zero zero (suc b) ha hb = absurd (omega arith)
bit_xor-lt (suc k) a b ha hb = omega (
  arith,
  bit_xor_digit a b,
  differ_bits (a % 2) (b % 2) (omega arith) (omega arith),
  pow-suc 2 k,
  bit_xor-lt k (a / 2) (b / 2) (omega (arith, pow-suc 2 k)) (omega (arith, pow-suc 2 k)),
)

-- A second `^` by the same word undoes the first.
pub bit_xor_undo : (k a b : ℕ) → a < 2 ^ k → b < 2 ^ k → bit_xor (bit_xor a b) b ≡ a
bit_xor_undo zero zero zero ha hb = refl
bit_xor_undo zero (suc a) b ha hb = absurd (omega arith)
bit_xor_undo zero zero (suc b) ha hb = absurd (omega arith)
bit_xor_undo (suc k) a b ha hb =
    let half_a : a / 2 < 2 ^ k = omega (arith, pow-suc 2 k) in
    let half_b : b / 2 < 2 ^ k = omega (arith, pow-suc 2 k) in
    let bits = differ_bits (a % 2) (b % 2) (omega arith) (omega arith) in
    let digit = bit_xor_digit a b in
    let half : bit_xor a b / 2 ≡ bit_xor (a / 2) (b / 2) = omega arith in
    let low : bit_xor a b % 2 ≡ differ (a % 2) (b % 2) = omega arith in
    rw (bit_xor_digit (bit_xor a b) b, half, low)
      (omega (arith, bit_xor_undo k (a / 2) (b / 2) half_a half_b))

mul-pow-suc : (q k : ℕ) → q * 2 ^ suc k ≡ q * 2 ^ k * 2
mul-pow-suc q k = omega (arith, ap (λ (t : ℕ). q * t) (pow-suc 2 k))

bit_or-zero : (k a : ℕ) → a < 2 ^ k → bit_or a 0 ≡ a
bit_or-zero zero zero h = refl
bit_or-zero zero (suc a) h = absurd (omega arith)
bit_or-zero (suc k) a h =
    omega (arith, bit_or_digit a 0, bit_or-zero k (a / 2) (omega (arith, pow-suc 2 k)))

bit_and-zero : (k a : ℕ) → a < 2 ^ k → bit_and a 0 ≡ 0
bit_and-zero zero zero h = refl
bit_and-zero zero (suc a) h = absurd (omega arith)
bit_and-zero (suc k) a h =
    omega (arith, bit_and_digit a 0, bit_and-zero k (a / 2) (omega (arith, pow-suc 2 k)))

lt_two_pow : (a : ℕ) → a < 2 ^ a
lt_two_pow zero = omega arith
lt_two_pow (suc a) = omega (arith, lt_two_pow a, pow-suc 2 a)

-- Two halves of `k` bits side by side: `|` of disjoint fields is their sum.
pub bit_or_halves : (k q r : ℕ) → r < 2 ^ k → bit_or (q * 2 ^ k) r ≡ q * 2 ^ k + r
bit_or_halves zero q zero h = omega (arith, bit_or-zero (q * 2 ^ 0) (q * 2 ^ 0) (lt_two_pow _))
bit_or_halves zero q (suc r) h = absurd (omega arith)
bit_or_halves (suc k) q r h = ground (
  arith,
  bit_or_digit (q * 2 ^ suc k) r,
  mul-pow-suc q k,
  bit_or_halves k q (r / 2) (omega (arith, pow-suc 2 k)),
)

bit_and_halves : (k q r : ℕ) → r < 2 ^ k → bit_and (q * 2 ^ k + r) (2 ^ k - 1) ≡ r
bit_and_halves zero q zero h = rw (bit_and-zero (q * 2 ^ 0 + 0) (q * 2 ^ 0 + 0) (lt_two_pow _))
bit_and_halves zero q (suc r) h = absurd (omega arith)
bit_and_halves (suc k) q r h = ground (
  arith,
  bit_and_digit (q * 2 ^ suc k + r) (2 ^ suc k - 1),
  mul-pow-suc q k,
  pow-suc 2 k,
  one-le-pow k 2,
  bit_and_halves k q (r / 2) (omega (arith, pow-suc 2 k)),
)

-- `&` with a mask of `k` ones is the remainder by `2 ^ k`.
pub bit_and_mask : (k a : ℕ) → bit_and a (2 ^ k - 1) ≡ a % 2 ^ k
bit_and_mask k a = ground (arith, one-le-pow k 2, bit_and_halves k (a / 2 ^ k) (a % 2 ^ k))
