-- ===== src/GenerateToken/Live/Claims.antt =====
-- The conditional claim of an admission on the rows of `Positions`, and the arrival counters.
use Prim.Native.String.{String}
use text.Mathlib.Text.{◌==◌ as str_eq}
use text.Mathlib.TextPositions.{eq_refl}
use virtual_waiting_room.Prelude.{
  ℕ, zero, suc, ◌+◌, ◌<◌, ◌≡◌, inl, inr, refl, ap, Option, none, some, List, [], ◌∷◌, arith, length,
  Bool-cases,
}
use virtual_waiting_room.Possession.{SecretDigest}
use virtual_waiting_room.Assembly.Laws.{sum}
use virtual_waiting_room.Items.Counters.{PositionItem, PositionStatus, issued, admitted}
use virtual_waiting_room.GenerateToken.Admit.{first, repeat}
use virtual_waiting_room.GenerateToken.Live.{find_position, claim_status, claim_rows, bump}

abbrev IsMarked : Option PositionItem → Type 0
IsMarked none = ⊥
IsMarked (some row) = row.status ≡ admitted

-- The row of `id` says that they were admitted.
abbrev pub WasAdmitted : String → List PositionItem → Type 0
WasAdmitted id rows = IsMarked (find_position id rows)

module _ (id : String) (position : ℕ) (digest : SecretDigest) (now : ℕ) where
  pub claim_rows_again :
      (rows : List PositionItem)
      → WasAdmitted id rows
      → claim_rows id position digest now rows ≡ (repeat, rows)
  unfolding claim_rows find_position
  claim_rows_again [] m = absurd m
  claim_rows_again (x ∷ rows) m = elim (Bool-cases (str_eq x.request_id id)) [
    | inl hit ↦ let marked : x.status ≡ admitted = rw hit at m in ground arith
    | inr miss ↦ let rest = claim_rows_again rows (rw miss at m) in rw (miss, rest)
  ]

  claim_status_marks :
      (s : PositionStatus) (x : PositionItem)
      → x.status ≡ s
      → ((claim_status id position digest now s x).1.status ≡ admitted)
        × ((claim_status id position digest now s x).1.request_id ≡ x.request_id)
  claim_status_marks issued x e = (refl, refl)
  claim_status_marks admitted x e = (e, refl)

  pub claim_rows-WasAdmitted :
      (rows : List PositionItem) → WasAdmitted id (claim_rows id position digest now rows).1
  unfolding claim_rows find_position
  claim_rows-WasAdmitted [] = rw (eq_refl id)
  claim_rows-WasAdmitted (x ∷ rows) = elim (Bool-cases (str_eq x.request_id id)) [
    | inl hit ↦
        let (marked, same) = claim_status_marks x.status x refl in rw (hit, same, hit) marked
    | inr miss ↦ rw (miss, miss) (claim_rows-WasAdmitted rows)
  ]

  pub claim_rows_first :
      (rows : List PositionItem)
      → ¬ WasAdmitted id rows
      → (claim_rows id position digest now rows).0 ≡ first
  unfolding claim_rows find_position
  claim_rows_first [] new = refl
  claim_rows_first (x ∷ rows) new = elim (Bool-cases (str_eq x.request_id id)) [
    | inl hit ↦ rw hit (by_status x.status refl (λ m. new (rw hit m)))
    | inr miss ↦ rw miss (claim_rows_first rows (λ m. new (rw miss m)))
  ]
    where
      by_status :
          (s : PositionStatus)
          → x.status ≡ s
          → ¬ (x.status ≡ admitted)
          → (claim_status id position digest now x.status x).0 ≡ first
      by_status issued e not_yet = ap (λ s. (claim_status id position digest now s x).0) e
      by_status admitted e not_yet = absurd (not_yet e)

-- `sum` after one arrival more.
pub sum-bump : (xs : List ℕ) (i : ℕ) → i < length xs → sum (bump xs i) ≡ sum xs + 1
unfolding bump
sum-bump [] i h = absurd (omega arith)
sum-bump (x ∷ xs) zero h = omega arith
sum-bump (x ∷ xs) (suc i) h = omega (arith, sum-bump xs i (omega arith))
