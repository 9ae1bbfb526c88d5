-- ===== src/Controller/Float.antt =====
-- The `f64` operations that crates/controller/src/lib.rs uses, as a parameter, and the laws of them
-- that the code's bound on a release relies on.
use virtual_waiting_room.Prelude.{ℕ, ◌*◌, ◌≤◌, ◌≡◌, Bool, true, u64_max}

pub record Float : Type 1 where
  pub F : Type 0
  pub nought : F
  pub one : F
  -- `EWMA_ALPHA` and `DDB_NUMBER_MIN_POSITIVE`.
  pub ewma_alpha : F
  pub ddb_number_min_positive : F
  pub add : F → F → F
  pub sub : F → F → F
  pub mul : F → F → F
  pub div : F → F → F
  pub fmin : F → F → F
  pub clamp : F → F → F → F
  pub round : F → F
  pub lt : F → F → Bool
  pub le : F → F → Bool
  -- `as f64` and `as u64`.
  pub of_u64 : ℕ → F
  pub to_u64 : F → ℕ

-- The laws of `f64` that a bound on the release rests on, on the integers up to `exact`, which `f64`
-- holds exactly. `reflexive`: such an integer is no NaN. `product`: a product of two that is one is
-- exact. `below`: `f64::min` is not above its second argument, whatever its first. `rounds`: rounding
-- to the nearest integer does not pass an integer. `casts`: nor does the cast to `u64`. `saturates`:
-- the cast of a value at or above `u64::MAX as f64` is `u64::MAX`.
pub record IsRounding (fl : Float) (exact : ℕ) : Type 0 where
  pub reflexive : (n : ℕ) → n ≤ exact → fl.le (fl.of_u64 n) (fl.of_u64 n) ≡ true
  pub product : (m n : ℕ) → m * n ≤ exact → fl.mul (fl.of_u64 m) (fl.of_u64 n) ≡ fl.of_u64 (m * n)
  pub below : (x : fl.F) (n : ℕ) → n ≤ exact → fl.le (fl.fmin x (fl.of_u64 n)) (fl.of_u64 n) ≡ true
  pub rounds :
      (x : fl.F) (n : ℕ)
      → n ≤ exact
      → fl.le x (fl.of_u64 n) ≡ true
      → fl.le (fl.round x) (fl.of_u64 n) ≡ true
  pub casts : (x : fl.F) (n : ℕ) → n ≤ exact → fl.le x (fl.of_u64 n) ≡ true → fl.to_u64 x ≤ n
  pub saturates : (x : fl.F) → fl.le (fl.of_u64 u64_max) x ≡ true → fl.to_u64 x ≡ u64_max
