-- ===== src/Room/Cases.antt =====
-- Where the place of a visitor comes from: their row of `Positions`, or else their registration.
use Prim.Native.String.{String}
use text.Mathlib.Text.{◌==◌ as str_eq}
use text.Mathlib.TextEquality.{eq_iff}
use virtual_waiting_room.Prelude.{
  ℕ, ◌≡◌, ◌≢◌, ◌⊎◌, inl, inr, refl, ap, sym, ◌∙◌, none, some, List, [], ◌∷◌, arith, Bool-cases,
  Option-cases,
}
use virtual_waiting_room.Prelude.Result.{Result, ok, err}
use virtual_waiting_room.Items.Counters.{
  Counters, PreQueueItem, PositionItem, PositionStatus, issued, admitted,
}
use virtual_waiting_room.Items.Resolve.{
  ResolvedPosition, at, straggler, ResolveError, not_open, bad_shard, resolve_prequeue,
  open_outputs,
}
use virtual_waiting_room.Items.Resolve.Laws.{IsOpened}
use virtual_waiting_room.Tables.{Tables}
use virtual_waiting_room.GenerateToken.Decide.{resolve_position, resolved, of_status}
use virtual_waiting_room.GenerateToken.Live.{find_prequeue, find_position}
use virtual_waiting_room.AssignPosition.Live.Register.Batch.{HasRegister}
use virtual_waiting_room.AssignPosition.Live.Register.Places
use virtual_waiting_room.AssignPosition.Live.Register.Places.{registered-distinct}
use virtual_waiting_room.Room.{held_by}

find_prequeue-In :
    (id : String) (rows : List PreQueueItem) (reg : PreQueueItem)
    → find_prequeue id rows ≡ some reg
    → Places.In reg rows × (reg.r ≡ id)
unfolding find_prequeue
find_prequeue-In id [] reg e = absurd (ground arith)
find_prequeue-In id (x ∷ rows) reg e = elim (Bool-cases (str_eq x.r id)) [
  | inl hit ↦
      let q : some x ≡ some reg = rw hit at e in
      let same : x ≡ reg = cc in (inl same, ap (λ y. y.r) (sym same) ∙ (eq_iff x.r id).0 hit)
  | inr miss ↦ let (there, mine) = find_prequeue-In id rows reg (rw miss at e) in (inr there, mine)
]

of_status_inv :
    (hmac : List ℕ → List ℕ → List ℕ) (p q : ℕ) (s : PositionStatus)
    → of_status hmac q s ≡ ok p
    → q ≡ p
of_status_inv hmac p q issued e = ground arith
of_status_inv hmac p q admitted e = ground arith

resolved_inv :
    (hmac : List ℕ → List ℕ → List ℕ) (p : ℕ) (r : Result ResolvedPosition ResolveError)
    → resolved hmac r ≡ ok p
    → r ≡ ok (at p)
resolved_inv hmac p (ok (at q)) e = let same : q ≡ p = ground arith in rw same refl
resolved_inv hmac p (ok straggler) e = cc
resolved_inv hmac p (err not_open) e = cc
resolved_inv hmac p (err bad_shard) e = cc

module _ (hmac : List ℕ → List ℕ → List ℕ) (id : String) (t : Tables) (c : Counters) (p : ℕ) where
  abbrev pub HasRow : Type 0
  HasRow =
      (row : PositionItem) × (find_position id t.positions ≡ some row) × (row.queue_position ≡ p)

  abbrev pub HasRegistration : Type 0
  HasRegistration =
      (reg : PreQueueItem) × (find_position id t.positions ≡ none)
      × (find_prequeue id t.prequeue ≡ some reg)
      × (resolve_prequeue hmac c reg ≡ ok (at p))

  pub held-cases : held_by hmac id t c ≡ ok p → HasRow ⊎ HasRegistration
  unfolding resolve_position
  held-cases e = elim (Option-cases (find_position id t.positions)) [
    | inr (row, found) ↦
        inl (row, found, of_status_inv hmac p row.queue_position row.status (rw found at e))
    | inl missing ↦ elim (Option-cases (find_prequeue id t.prequeue)) [
      | inl unknown ↦ absurd (cc (rw (missing, unknown) at e))
      | inr (reg, found) ↦
          inr (reg, missing, found, resolved_inv hmac p _ (rw (missing, found) at e))
    ]
  ]

of_status_lem :
    (hmac : List ℕ → List ℕ → List ℕ) (q : ℕ) (s : PositionStatus) → of_status hmac q s ≡ ok q
of_status_lem hmac q issued = refl
of_status_lem hmac q admitted = refl

pub held-row :
    (hmac : List ℕ → List ℕ → List ℕ) (id : String) (t : Tables) (c : Counters) (p : ℕ)
    (row : PositionItem)
    → find_position id t.positions ≡ some row
    → row.queue_position ≡ p
    → held_by hmac id t c ≡ ok p
unfolding resolve_position
held-row hmac id t c p row found place =
    rw found (of_status_lem hmac row.queue_position row.status ∙ ap ok place)

-- Before the open nobody has a place.
pub unopened-held :
    (hmac : List ℕ → List ℕ → List ℕ) (id : String) (t : Tables) (c : Counters) (p : ℕ)
    → c.shuffle_seed ≡ none
    → t.positions ≡ []
    → held_by hmac id t c ≢ ok p
unfolding resolve_prequeue open_outputs find_position
unopened-held hmac id t c p closed nobody e = elim (held-cases hmac id t c p e) [
  | inl (row, found, place) ↦
      absurd (let gone : none ≡ some row = rw nobody at found in ground arith)
  | inr (reg, missing, found, place) ↦
      absurd (let refused : err not_open ≡ ok (at p) = rw closed at place in cc)
]

-- Two visitors whose registrations have one place are one.
pub registered-one :
    (hmac : List ℕ → List ℕ → List ℕ) (counts seed : List ℕ) (c : Counters) (t : Tables)
    (id id' : String) (reg reg' : PreQueueItem) (p : ℕ)
    → HasRegister t
    → IsOpened counts seed c
    → find_prequeue id t.prequeue ≡ some reg
    → find_prequeue id' t.prequeue ≡ some reg'
    → resolve_prequeue hmac c reg ≡ ok (at p)
    → resolve_prequeue hmac c reg' ≡ ok (at p)
    → id ≡ id'
registered-one hmac counts seed c t id id' reg reg' p kept opened found found' place place' =
    let (there, mine) = find_prequeue-In id t.prequeue reg found in
    let (there', mine') = find_prequeue-In id' t.prequeue reg' found' in
    let one =
      registered-distinct hmac counts seed c t reg reg' p kept opened there there' place place' in
    sym mine ∙ ap (λ x. x.r) one ∙ mine'
