-- ===== src/Permutation.antt =====
-- crates/wr-common/src/permutation/mod.rs: the seeded permutation that gives a registration index
-- its queue position. HMAC-SHA256 comes from a package: it is the parameter `hmac`, from a key and
-- a message to the bytes of the tag, of which the code reads the first four.
pub mod Feistel
pub mod CycleWalk
pub mod Bijection
use Prim.Native.Nat.{bit_and, bit_or, bit_xor}
use mathlib.Core.Option
use virtual_waiting_room.Prelude.{
  ℕ, zero, suc, ◌+◌, ◌-◌, ◌*◌, ◌/◌, ◌%◌, ◌^◌, ◌||◌, Bool, true, false, Option, none, some, List, [],
  ◌∷◌, leb, ltb, ◌==◌, if◌then◌else◌, get_or, ◌<<<◌, ◌>>>◌,
}

-- The 32 bytes of the key.
pub record Seed : Type 0 where
  pub bytes : List ℕ

-- `ROUNDS`.
abbrev pub rounds : ℕ
rounds = 4

-- `u64::leading_zeros`, of a number with at most `width` digits.
unfoldable pub leading_zeros : ℕ → ℕ → ℕ
leading_zeros zero x = 0
leading_zeros (suc width) x = if x == 0 then suc width else leading_zeros width (x / 2)

-- `u32::div_ceil`.
abbrev div_ceil : ℕ → ℕ → ℕ
div_ceil a d = (a + d - 1) / d

unfoldable pub half_width : ℕ → ℕ
half_width n = let bits = 64 - leading_zeros 64 (n - 1) in div_ceil bits 2

-- The low four of the bytes of `x.to_be_bytes()`, `[4..8]` of eight.
abbrev low_be_bytes : ℕ → List ℕ
low_be_bytes x = x / 2 ^ 24 % 256 ∷ x / 2 ^ 16 % 256 ∷ x / 2 ^ 8 % 256 ∷ x % 256 ∷ []

-- `u32::from_be_bytes` of the first four bytes.
abbrev from_be_bytes : List ℕ → ℕ
from_be_bytes t =
    get_or t 0 0 * 2 ^ 24 + get_or t 1 0 * 2 ^ 16 + get_or t 2 0 * 2 ^ 8 + get_or t 3 0

-- The loop of `prp`: `step` is `enc` at the key, the width and the mask. `none` is only reached
-- when the fuel runs out, which the code has no counterpart of.
unfoldable pub cycle_walk : (ℕ → ℕ) → ℕ → ℕ → ℕ → Option ℕ
cycle_walk step n zero v = none
cycle_walk step n (suc fuel) v =
    let v' = step v in elim (ltb v' n) [ true ↦ some v' | false ↦ cycle_walk step n fuel v' ]

module _ (hmac : List ℕ → List ℕ → List ℕ) where
  unfoldable pub round_function : List ℕ → ℕ → ℕ → ℕ → ℕ
  round_function key round x mask =
      let msg = round ∷ low_be_bytes x in
      let tag = hmac key msg in let word = from_be_bytes tag in bit_and word mask

  -- The `while` loop of `enc`, with `ROUNDS - round` rounds left: the two halves it ends with.
  unfoldable pub enc_rounds : List ℕ → ℕ → ℕ → ℕ → ℕ → ℕ → ℕ × ℕ
  enc_rounds key mask zero round left right = (left, right)
  enc_rounds key mask (suc rest) round left right =
      enc_rounds key mask rest (round + 1) right
        (bit_xor left (round_function key round right mask))

  unfoldable pub enc : List ℕ → ℕ → ℕ → ℕ → ℕ
  enc key v b mask =
      let (left, right) = enc_rounds key mask rounds 0 (v >>> b) (bit_and v mask) in
      bit_or (left <<< b) right

  -- The fuel is the size of the domain, and `n`, which is no position, would show that it ran out:
  -- `prp-lt` excludes that.
  unfoldable pub prp : Seed → ℕ → ℕ → ℕ
  prp seed i n =
      if leb n 1 || leb n i
      then i
      else (let b = half_width n in
          let mask = 2 ^ b - 1 in
          Option.get_or (cycle_walk (λ v. enc seed.bytes v b mask) n (2 ^ b * 2 ^ b) i) n)
