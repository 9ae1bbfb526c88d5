-- ===== src/Prelude/Finite.antt =====
-- Counting on ranges `[0, n)`.
use native.Mathlib.Decide.{ℕ_discrete}
use virtual_waiting_room.Prelude.{
  ℕ, zero, suc, ◌-◌, ◌≤◌, ◌<◌, ◌≡◌, ◌≢◌, ◌⊎◌, inl, inr, arith, ◌==◌, if◌then◌else◌,
}

-- `g` sends `[0, k)` into `[0, m)`.
abbrev pub Into : (ℕ → ℕ) → ℕ → ℕ → Type 0
Into g k m = (j : ℕ) → j < k → g j < m

-- `g` gives two numbers below `k` two values.
abbrev pub Separates : (ℕ → ℕ) → ℕ → Type 0
Separates g k = (a b : ℕ) → a < b → b < k → g a ≢ g b

-- The value `old` of `g` is moved to `new`.
abbrev move : (ℕ → ℕ) → ℕ → ℕ → ℕ → ℕ
move g old new j = if g j == old then new else g j

-- A range that is separated into another is no longer than it.
pub pigeonhole : (k m : ℕ) (g : ℕ → ℕ) → Into g k m → Separates g k → k ≤ m
pigeonhole zero m g into apart = omega arith
pigeonhole (suc k) zero g into apart = absurd (omega (arith, into k (omega arith)))
pigeonhole (suc k) (suc m) g into apart = omega (
  arith,
  pigeonhole k m (move g m (g k))
      (λ j h. ground (arith, into j (omega arith), into k (omega arith), apart j k h (omega arith)))
      (λ a b h h'. ground (
        arith,
        apart a b h (omega arith),
        apart a k (omega arith) (omega arith),
        apart b k h' (omega arith),
      )),
)

pub search_below :
    (k : ℕ) (g : ℕ → ℕ) (y : ℕ) → ((i : ℕ) × (i < k) × (g i ≡ y)) ⊎ ((i : ℕ) → i < k → g i ≢ y)
search_below zero g y = inr (λ i h e. absurd (omega arith))
search_below (suc k) g y = elim (search_below k g y) [
  | inl (i, h, e) ↦ inl (i, omega arith, e)
  | inr missing ↦ elim (ℕ_discrete (g k) y) [
    | yes e ↦ inl (k, omega arith, e)
    | no ne ↦ inr (λ i h e. ground (arith, missing i))
  ]
]

-- An injection of `[0, n)` into itself reaches every number below `n`.
pub Separates-onto :
    (n : ℕ) (g : ℕ → ℕ) (y : ℕ) → Into g n n → Separates g n → y < n → (i : ℕ) × (i < n) × (g i ≡ y)
Separates-onto n g y into apart h = elim (search_below n g y) [
  | inl found ↦ found
  | inr missing ↦ absurd (
      omega (
        arith,
        pigeonhole n (n - 1) (move g (n - 1) y) (λ j hj. ground (arith, into j hj, missing j hj))
            (λ a b hab hb. ground (arith, apart a b hab hb, missing a (omega arith), missing b hb)),
      ))
]
