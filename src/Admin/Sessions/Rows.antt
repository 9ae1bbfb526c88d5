-- ===== src/Admin/Sessions/Rows.antt =====
-- The rows of the `Tokens` table under the requests of crates/admin/src/sessions.rs.
use Prim.Native.String.{String}
use text.Mathlib.Text.{◌==◌ as str_eq}
use text.Mathlib.TextEquality.{eq_iff}
use text.Mathlib.TextPositions.{eq_refl}
use virtual_waiting_room.Prelude.{
  ◌≡◌, ◌≢◌, inl, inr, refl, sym, ◌∙◌, false, Option, none, some, [], ◌∷◌, Bool-cases,
}
use virtual_waiting_room.Items.Attributes.{Item}
use virtual_waiting_room.Admin.Sessions.{
  Rows, find_row, delete_row, put_row, Outcome, done, refused, unheard, changed,
}

eq_false : (a b : String) → a ≢ b → str_eq a b ≡ false
eq_false a b ne = elim (Bool-cases (str_eq a b)) [
  | inl same ↦ absurd (ne ((eq_iff a b).0 same))
  | inr other ↦ other
]

pub find-delete_row : (key : String) (rows : Rows) → find_row key (delete_row key rows) ≡ none
unfolding find_row delete_row
find-delete_row key [] = refl
find-delete_row key ((k, item) ∷ rows) = elim (Bool-cases (str_eq k key)) [
  | inl hit ↦ rw hit (find-delete_row key rows)
  | inr miss ↦ rw (miss, miss) (find-delete_row key rows)
]

pub find-delete_row_other :
    (key other : String) (rows : Rows)
    → other ≢ key
    → find_row key (delete_row other rows) ≡ find_row key rows
unfolding find_row delete_row
find-delete_row_other key other [] ne = refl
find-delete_row_other key other ((k, item) ∷ rows) ne = elim (Bool-cases (str_eq k other)) [
  | inl hit ↦
      let same : k ≡ other = (eq_iff k other).0 hit in
      let miss = eq_false k key (λ q. ne (sym same ∙ q)) in
      rw (hit, miss) (find-delete_row_other key other rows ne)
  | inr miss ↦ elim (Bool-cases (str_eq k key)) [
    | inl mine ↦ rw (miss, mine) refl
    | inr differs ↦ rw (miss, differs) (find-delete_row_other key other rows ne)
  ]
]

pub find-put_row :
    (key : String) (item : Item) (rows : Rows) → find_row key (put_row key item rows) ≡ some item
unfolding find_row
find-put_row key item rows = rw (eq_refl key) refl

pub find-put_row_other :
    (key other : String) (item : Item) (rows : Rows)
    → other ≢ key
    → find_row key (put_row other item rows) ≡ find_row key rows
unfolding find_row
find-put_row_other key other item rows ne =
    rw (eq_false other key ne) (find-delete_row_other key other rows ne)

-- A request that leaves a row alone where it is done leaves it alone.
pub find-changed :
    (out : Outcome) (key : String) (rows rows' : Rows)
    → find_row key rows' ≡ find_row key rows
    → find_row key (changed out rows rows') ≡ find_row key rows
find-changed done key rows rows' e = e
find-changed (refused why) key rows rows' e = refl
find-changed (unheard why) key rows rows' e = e

pub find-changed_same :
    (out : Outcome) (key : String) (rows rows' : Rows) (row : Option Item)
    → find_row key rows ≡ row
    → find_row key rows' ≡ row
    → find_row key (changed out rows rows') ≡ row
find-changed_same out key rows rows' row e e' = find-changed out key rows rows' (e' ∙ sym e) ∙ e
