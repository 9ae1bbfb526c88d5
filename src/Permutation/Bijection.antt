-- ===== src/Permutation/Bijection.antt =====
-- `prp` of crates/wr-common/src/permutation/mod.rs on the cohort `[0, n)`.
use virtual_waiting_room.Prelude.{
  ℕ, ◌-◌, ◌*◌, ◌^◌, ◌≤◌, ◌<◌, ◌≡◌, ap, ◌∙◌, some, List, arith, u64_max,
}
use native.Mathlib.Decide.{dec_lt}
use virtual_waiting_room.Prelude.Finite.{Separates-onto}
use virtual_waiting_room.Permutation.{Seed, half_width, cycle_walk, enc, prp}
use virtual_waiting_room.Permutation.Feistel.{
  half_width-le, half_width_covers, enc-lt, enc-injective,
}
use virtual_waiting_room.Permutation.CycleWalk.{
  IsPermutation, cycle_walk-total, cycle_walk-injective,
}

module _ (hmac : List ℕ → List ℕ → List ℕ) (seed : Seed) (n : ℕ) (fits : n ≤ u64_max) where
  abbrev domain : ℕ
  domain = 2 ^ half_width n * 2 ^ half_width n

  abbrev step : ℕ → ℕ
  step v = enc hmac seed.bytes v (half_width n) (2 ^ half_width n - 1)

  step-IsPermutation : IsPermutation step domain
  step-IsPermutation = record {
    bounded = λ v h. enc-lt hmac seed.bytes (half_width n) v (half_width-le n) h;
    injective =
        λ v w hv hw e. enc-injective hmac seed.bytes (half_width n) v w (half_width-le n) hv hw e;
  }

  -- On a cohort of two or more `prp` is the walk, and the fuel suffices.
  prp_walk :
      (i : ℕ)
      → 1 < n
      → i < n
      → (cycle_walk step n domain i ≡ some (prp hmac seed i n)) × (prp hmac seed i n < n)
  unfolding prp
  prp_walk i big h =
      let (w, e, below) =
        cycle_walk-total step n domain step-IsPermutation (half_width_covers n big (omega arith)) i
          h in
      ground arith

  prp_small : (i : ℕ) → n ≤ 1 → prp hmac seed i n ≡ i
  unfolding prp
  prp_small i small = ground arith

  -- The position of a registration index of a cohort whose size fits a `u64` lies in the cohort:
  -- the walk ends within its fuel, and stays off the rest of the domain.
  pub prp-lt : (i : ℕ) → i < n → prp hmac seed i n < n
  prp-lt i h = elim (dec_lt 1 n) [
    | yes big ↦ (prp_walk i big h).1
    | no small ↦ rw (prp_small i (omega arith)) h
  ]

  -- No two registration indices of a cohort whose size fits a `u64` get one position.
  pub prp-injective : (i j : ℕ) → i < n → j < n → prp hmac seed i n ≡ prp hmac seed j n → i ≡ j
  prp-injective i j hi hj e = elim (dec_lt 1 n) [
    | yes big ↦
        cycle_walk-injective step n domain step-IsPermutation
          (half_width_covers n big (omega arith)) domain domain i j (prp hmac seed j n) hi hj
          ((prp_walk i big hi).0 ∙ ap some e) (prp_walk j big hj).0
    | no small ↦ omega arith
  ]

  -- Every position of a cohort whose size fits a `u64` goes to some registration index, position 0
  -- included.
  pub prp-onto : (p : ℕ) → p < n → (i : ℕ) × (i < n) × (prp hmac seed i n ≡ p)
  prp-onto p h =
      Separates-onto n (λ i. prp hmac seed i n) p prp-lt
        (λ a b ab hb e. absurd (omega (arith, prp-injective a b (omega arith) hb e))) h
