-- ===== src/Prelude/Decimal.antt =====
-- `to_string` of an unsigned integer, and its way back through `str::parse`.
use Prim.Native.Char.{Char, code}
use Prim.Native.String.{String}
use virtual_waiting_room.Prelude.{
  ℕ, zero, suc, ◌+◌, ◌-◌, ◌*◌, ◌/◌, ◌%◌, ◌≤◌, ◌<◌, ◌≡◌, inl, inr, refl, ap, ◌∙◌, true, List, ◌∷◌,
  ltb, ◌==◌, if◌then◌else◌, arith, Bool-cases,
}
use virtual_waiting_room.Prelude.Text.{codes, all, is_ascii_digit}

abbrev digit : ℕ → Char
digit n =
    if n == 0
    then "0"
    else if n == 1
    then "1"
    else if n == 2
    then "2"
    else if n == 3
    then "3"
    else if n == 4
    then "4"
    else if n == 5
    then "5"
    else if n == 6
    then "6"
    else if n == 7
    then "7"
    else if n == 8
    then "8"
    else "9"

-- The digits of `n` in front of `rest`. The fuel is more than enough: each round drops a digit.
unfoldable pub digits : ℕ → ℕ → String → String
digits zero n rest = rest
digits (suc fuel) n rest =
    let more = digits fuel (n / 10) (String.◌∷◌ (digit (n % 10)) rest) in
    if ltb n 10 then String.◌∷◌ (digit (n % 10)) rest else more

unfoldable pub to_string : ℕ → String
unfolding digits
to_string n = digits (suc n) n String.[]

code-digit : (n : ℕ) → n < 10 → code (digit n) ≡ n + 48
code-digit zero h = refl
code-digit (suc zero) h = refl
code-digit (suc (suc zero)) h = refl
code-digit (suc (suc (suc zero))) h = refl
code-digit (suc (suc (suc (suc zero)))) h = refl
code-digit (suc (suc (suc (suc (suc zero))))) h = refl
code-digit (suc (suc (suc (suc (suc (suc zero)))))) h = refl
code-digit (suc (suc (suc (suc (suc (suc (suc zero))))))) h = refl
code-digit (suc (suc (suc (suc (suc (suc (suc (suc zero)))))))) h = refl
code-digit (suc (suc (suc (suc (suc (suc (suc (suc (suc zero))))))))) h = refl
code-digit (suc (suc (suc (suc (suc (suc (suc (suc (suc (suc n)))))))))) h = absurd (omega arith)

-- The code points of the digits read as the number, whatever a reader makes of them one by one.
module _ (value : ℕ → List ℕ → ℕ)
    (step : (acc c : ℕ) (cs : List ℕ) → value acc (c ∷ cs) ≡ value (acc * 10 + (c - 48)) cs) where
  pub value-digits :
      (fuel n : ℕ) (rest : String)
      → n < fuel
      → value 0 (codes (digits fuel n rest)) ≡ value n (codes rest)
  unfolding digits
  value-digits zero n rest h = absurd (omega arith)
  value-digits (suc fuel) n rest h = elim (Bool-cases (ltb n 10)) [
    | inl small ↦
        let low : n < 10 = ground arith in
        let c = code-digit (n % 10) (omega arith) in
        rw small (
          step 0 (code (digit (n % 10))) (codes rest)
          ∙ ap (λ a. value a (codes rest)) (omega (arith, c)))
    | inr large ↦
        let high : 10 ≤ n = ground arith in
        let c = code-digit (n % 10) (omega arith) in
        rw large (
          value-digits fuel (n / 10) (String.◌∷◌ (digit (n % 10)) rest) (omega arith)
          ∙ step (n / 10) (code (digit (n % 10))) (codes rest)
          ∙ ap (λ a. value a (codes rest)) (omega (arith, c)))
  ]

is_ascii_digit-digit : (n : ℕ) → n < 10 → is_ascii_digit (code (digit n)) ≡ true
is_ascii_digit-digit n h = rw (code-digit n h) (ground arith)

pub all-digits :
    (fuel n : ℕ) (rest : String)
    → n < fuel
    → all is_ascii_digit (codes rest) ≡ true
    → all is_ascii_digit (codes (digits fuel n rest)) ≡ true
unfolding digits
all-digits zero n rest h e = absurd (omega arith)
all-digits (suc fuel) n rest h e =
    let here = is_ascii_digit-digit (n % 10) (omega arith) in
    elim (Bool-cases (ltb n 10)) [
      | inl small ↦ rw (small, here) e
      | inr large ↦
          let high : 10 ≤ n = ground arith in
          rw large
            (all-digits fuel (n / 10) (String.◌∷◌ (digit (n % 10)) rest) (omega arith) (rw here e))
    ]

pub digits-cons :
    (fuel n : ℕ) (rest : String)
    → n < fuel
    → (c : Char) × (s : String) × (digits fuel n rest ≡ String.◌∷◌ c s)
unfolding digits
digits-cons zero n rest h = absurd (omega arith)
digits-cons (suc fuel) n rest h = elim (Bool-cases (ltb n 10)) [
  | inl small ↦ (digit (n % 10), rest, rw small refl)
  | inr large ↦
      let high : 10 ≤ n = ground arith in
      let (c, s, e) = digits-cons fuel (n / 10) (String.◌∷◌ (digit (n % 10)) rest) (omega arith) in
      (c, s, rw large e)
]
