-- ===== src/Room/Held.antt =====
-- The places that the rows of `Positions` hold, and the claim of an admission on them.
use Prim.Native.String.{String}
use text.Mathlib.Text.{◌==◌ as str_eq}
use virtual_waiting_room.Prelude.{
  ℕ, ◌≤◌, ◌<◌, ◌≡◌, ◌≢◌, ◌⊎◌, inl, inr, refl, ap, sym, ◌∙◌, none, some, List, [], ◌∷◌, ◌++◌, arith,
  Bool-cases,
}
use virtual_waiting_room.Prelude.Result.{ok}
use virtual_waiting_room.Possession.{SecretDigest}
use virtual_waiting_room.Assembly.Laws.{sum}
use virtual_waiting_room.Items.Counters.{
  Counters, PreQueueItem, PositionItem, PositionStatus, issued, admitted,
}
use virtual_waiting_room.Items.Resolve.{at, resolve_prequeue}
use virtual_waiting_room.Items.Resolve.Laws.{IsOpened, resolve_lem}
use virtual_waiting_room.GenerateToken.Live.{
  find_prequeue, find_position, claim_status, claim_rows, created,
}
use virtual_waiting_room.AssignPosition.Live.Line.{IsFree, IsLine}
use virtual_waiting_room.Room.Line.{All}

-- The place is that of the registration in the cohort, whatever else the counters say.
abbrev pub Resolves : (List ℕ → List ℕ → List ℕ) → List ℕ → List ℕ → PreQueueItem → ℕ → Type 0
Resolves hmac counts seed reg p =
    (c : Counters) → IsOpened counts seed c → resolve_prequeue hmac c reg ≡ ok (at p)

pub resolve-Resolves :
    (hmac : List ℕ → List ℕ → List ℕ) (counts seed : List ℕ) (c : Counters) (reg : PreQueueItem)
    (p : ℕ)
    → IsOpened counts seed c
    → resolve_prequeue hmac c reg ≡ ok (at p)
    → Resolves hmac counts seed reg p
resolve-Resolves hmac counts seed c reg p opened e c' opened' =
    resolve_lem hmac counts seed c' opened' reg
    ∙ sym (resolve_lem hmac counts seed c opened reg)
    ∙ e

-- The row's place is one past the cohort, or the visitor's own in it.
abbrev pub IsPlaced :
    (List ℕ → List ℕ → List ℕ) → List ℕ → List ℕ → List PreQueueItem → PositionItem → Type 0
IsPlaced hmac counts seed prequeue row =
    (sum counts < row.queue_position)
    ⊎ ((reg : PreQueueItem) × (find_prequeue row.request_id prequeue ≡ some reg)
        × Resolves hmac counts seed reg row.queue_position)

-- Row by row the same visitors with the same places.
abbrev pub IsSamePlaces : List PositionItem → List PositionItem → Type 0
IsSamePlaces [] [] = Unit {0}
IsSamePlaces [] (y ∷ ys) = ⊥
IsSamePlaces (x ∷ xs) [] = ⊥
IsSamePlaces (x ∷ xs) (y ∷ ys) =
    (y.request_id ≡ x.request_id) × (y.queue_position ≡ x.queue_position) × IsSamePlaces xs ys

pub IsSamePlaces-refl : (xs : List PositionItem) → IsSamePlaces xs xs
IsSamePlaces-refl [] = tt
IsSamePlaces-refl (x ∷ xs) = (refl, refl, IsSamePlaces-refl xs)

IsSamePlaces-IsFree :
    (p : ℕ) (xs ys : List PositionItem) → IsSamePlaces xs ys → IsFree p xs → IsFree p ys
IsSamePlaces-IsFree p [] [] same free = tt
IsSamePlaces-IsFree p [] (y ∷ ys) same free = absurd same
IsSamePlaces-IsFree p (x ∷ xs) [] same free = absurd same
IsSamePlaces-IsFree p (x ∷ xs) (y ∷ ys) same free =
    (λ e. free.0 (sym same.1 ∙ e), IsSamePlaces-IsFree p xs ys same.2 free.1)

pub IsSamePlaces-IsLine :
    (b : ℕ) (xs ys : List PositionItem) → IsSamePlaces xs ys → IsLine b xs → IsLine b ys
IsSamePlaces-IsLine b [] [] same line = tt
IsSamePlaces-IsLine b [] (y ∷ ys) same line = absurd same
IsSamePlaces-IsLine b (x ∷ xs) [] same line = absurd same
IsSamePlaces-IsLine b (x ∷ xs) (y ∷ ys) same line = (
  rw same.1 line.0,
  rw same.1 (IsSamePlaces-IsFree x.queue_position xs ys same.2 line.1),
  IsSamePlaces-IsLine b xs ys same.2 line.2,
)

pub IsSamePlaces-IsPlaced :
    (hmac : List ℕ → List ℕ → List ℕ) (counts seed : List ℕ) (prequeue : List PreQueueItem)
    (xs ys : List PositionItem)
    → IsSamePlaces xs ys
    → All (IsPlaced hmac counts seed prequeue) xs
    → All (IsPlaced hmac counts seed prequeue) ys
IsSamePlaces-IsPlaced hmac counts seed prequeue [] [] same all = tt
IsSamePlaces-IsPlaced hmac counts seed prequeue [] (y ∷ ys) same all = absurd same
IsSamePlaces-IsPlaced hmac counts seed prequeue (x ∷ xs) [] same all = absurd same
IsSamePlaces-IsPlaced hmac counts seed prequeue (x ∷ xs) (y ∷ ys) same all =
    (rw (same.0, same.1) all.0, IsSamePlaces-IsPlaced hmac counts seed prequeue xs ys same.2 all.1)

pub IsSamePlaces-find :
    (id : String) (xs ys : List PositionItem) (x : PositionItem)
    → IsSamePlaces xs ys
    → find_position id xs ≡ some x
    → (y : PositionItem) × (find_position id ys ≡ some y) × (y.queue_position ≡ x.queue_position)
unfolding find_position
IsSamePlaces-find id [] [] x same e = absurd (ground arith)
IsSamePlaces-find id [] (y ∷ ys) x same e = absurd same
IsSamePlaces-find id (w ∷ xs) [] x same e = absurd same
IsSamePlaces-find id (w ∷ xs) (y ∷ ys) x same e = elim (Bool-cases (str_eq w.request_id id)) [
  | inl hit ↦
      let q : some w ≡ some x = rw hit at e in
      let one : w ≡ x = cc in (y, rw (same.0, hit) refl, same.1 ∙ ap (λ z. z.queue_position) one)
  | inr miss ↦
      let (z, found, place) = IsSamePlaces-find id xs ys x same.2 (rw miss at e) in
      (z, rw (same.0, miss) found, place)
]

pub IsLine-last :
    (b : ℕ) (rows : List PositionItem) (row : PositionItem)
    → IsLine b rows
    → row.queue_position ≤ b
    → IsFree row.queue_position rows
    → IsLine b (rows ++ row ∷ [])
IsLine-last b [] row line le free = (le, tt, tt)
IsLine-last b (x ∷ rows) row line le free = (
  line.0,
  IsFree-last x.queue_position rows line.1 (λ e. free.0 (sym e)),
  IsLine-last b rows row line.2 le free.1,
)
  where
    IsFree-last :
        (p : ℕ) (xs : List PositionItem)
        → IsFree p xs
        → row.queue_position ≢ p
        → IsFree p (xs ++ row ∷ [])
    IsFree-last p [] f ne = (ne, tt)
    IsFree-last p (y ∷ xs) f ne = (f.0, IsFree-last p xs f.1 ne)

pub All-last {ℓ} :
    (P : PositionItem → Type ℓ) (rows : List PositionItem) (row : PositionItem)
    → All P rows
    → P row
    → All P (rows ++ row ∷ [])
All-last P [] row all p = (p, tt)
All-last P (x ∷ rows) row all p = (all.0, All-last P rows row all.1 p)

module _ (id : String) (position : ℕ) (digest : SecretDigest) (now : ℕ) where
  claim_status_same :
      (s : PositionStatus) (x : PositionItem)
      → x.queue_position ≡ position
      → ((claim_status id position digest now s x).1.request_id ≡ x.request_id)
        × ((claim_status id position digest now s x).1.queue_position ≡ x.queue_position)
  claim_status_same issued x e = (refl, sym e)
  claim_status_same admitted x e = (refl, refl)

  -- A claim of the place that the visitor's row has moves nobody.
  pub claim_rows-IsSamePlaces :
      (rows : List PositionItem) (x : PositionItem)
      → find_position id rows ≡ some x
      → x.queue_position ≡ position
      → IsSamePlaces rows (claim_rows id position digest now rows).1
  unfolding claim_rows find_position
  claim_rows-IsSamePlaces [] x e at_place = absurd (ground arith)
  claim_rows-IsSamePlaces (w ∷ rows) x e at_place = elim (Bool-cases (str_eq w.request_id id)) [
    | inl hit ↦
        let q : some w ≡ some x = rw hit at e in
        let one : w ≡ x = cc in
        let (same_id, same_place) =
          claim_status_same w.status w (ap (λ z. z.queue_position) one ∙ at_place) in
        rw hit (same_id, same_place, IsSamePlaces-refl rows)
    | inr miss ↦ rw miss (refl, refl, claim_rows-IsSamePlaces rows x (rw miss at e) at_place)
  ]

  -- A claim for a visitor without a row adds one.
  pub claim_rows_new :
      (rows : List PositionItem)
      → find_position id rows ≡ none
      → (claim_rows id position digest now rows).1 ≡ rows ++ created id position digest now ∷ []
  unfolding claim_rows find_position
  claim_rows_new [] e = refl
  claim_rows_new (w ∷ rows) e = elim (Bool-cases (str_eq w.request_id id)) [
    | inl hit ↦ absurd (let q : some w ≡ none = rw hit at e in ground arith)
    | inr miss ↦ rw miss (ap (λ r. w ∷ r) (claim_rows_new rows (rw miss at e)))
  ]
