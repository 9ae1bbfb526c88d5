-- ===== src/Room/Line.antt =====
-- The rows of `Positions` with the registrations of `PreQueue`: distinct places, each past the
-- cohort or that of the visitor's own registration.
use Prim.Native.String.{String}
use text.Mathlib.Text.{◌==◌ as str_eq}
use text.Mathlib.TextEquality.{eq_iff}
use virtual_waiting_room.Prelude.{
  ℕ, ◌≡◌, ◌⊎◌, inl, inr, ap, sym, ◌∙◌, some, List, [], ◌∷◌, arith, Bool-cases,
}
use virtual_waiting_room.Items.Counters.{PositionItem}
use virtual_waiting_room.GenerateToken.Live.{find_position}
use virtual_waiting_room.AssignPosition.Live.Line.{IsFree, IsLine}

-- A row is there.
abbrev pub In : PositionItem → List PositionItem → Type 0
In row [] = ⊥
In row (x ∷ rows) = (x ≡ row) ⊎ In row rows

pub find_position-In :
    (id : String) (rows : List PositionItem) (row : PositionItem)
    → find_position id rows ≡ some row
    → In row rows × (row.request_id ≡ id)
unfolding find_position
find_position-In id [] row e = absurd (ground arith)
find_position-In id (x ∷ rows) row e = elim (Bool-cases (str_eq x.request_id id)) [
  | inl hit ↦
      let q : some x ≡ some row = rw hit at e in
      let same : x ≡ row = cc in
      (inl same, ap (λ y. y.request_id) (sym same) ∙ (eq_iff x.request_id id).0 hit)
  | inr miss ↦ let (there, mine) = find_position-In id rows row (rw miss at e) in (inr there, mine)
]

IsFree-out :
    (p : ℕ) (rows : List PositionItem) (row : PositionItem)
    → IsFree p rows
    → In row rows
    → row.queue_position ≡ p
    → ⊥
IsFree-out p [] row free h e = h
IsFree-out p (x ∷ rows) row free (inl q) e = free.0 (ap (λ y. y.queue_position) q ∙ e)
IsFree-out p (x ∷ rows) row free (inr there) e = IsFree-out p rows row free.1 there e

-- One place, one row.
pub IsLine-one :
    (b : ℕ) (rows : List PositionItem) (row row' : PositionItem)
    → IsLine b rows
    → In row rows
    → In row' rows
    → row.queue_position ≡ row'.queue_position
    → row ≡ row'
IsLine-one b [] row row' line h h' e = absurd h
IsLine-one b (x ∷ rows) row row' line (inl q) (inl q') e = sym q ∙ q'
IsLine-one b (x ∷ rows) row row' line (inl q) (inr there) e =
    absurd
      (IsFree-out x.queue_position rows row' line.1 there (sym (ap (λ y. y.queue_position) q ∙ e)))
IsLine-one b (x ∷ rows) row row' line (inr there) (inl q') e =
    absurd
      (IsFree-out x.queue_position rows row line.1 there (e ∙ sym (ap (λ y. y.queue_position) q')))
IsLine-one b (x ∷ rows) row row' line (inr there) (inr there') e =
    IsLine-one b rows row row' line.2 there there' e

-- A row of `PreQueue` is there.
abbrev pub All {ℓ} : (PositionItem → Type ℓ) → List PositionItem → Type ℓ
All P [] = Unit
All P (x ∷ rows) = P x × All P rows

pub All-In {ℓ} :
    (P : PositionItem → Type ℓ) (rows : List PositionItem) (row : PositionItem)
    → All P rows
    → In row rows
    → P row
All-In P [] row all h = absurd h
All-In P (x ∷ rows) row all (inl q) = rw (← q) all.0
All-In P (x ∷ rows) row all (inr there) = All-In P rows row all.1 there
