-- ===== src/Controller/Arrivals.antt =====
-- `arrivals_from_shard_items` and `read_arrivals` of crates/controller/src/dynamo.rs. The batch's
-- response is its items and whether any key was left unprocessed.
use virtual_waiting_room.Prelude.{
  ℕ, ◌≡◌, ◌↔◌, refl, sym, ap, ◌∙◌, Bool, true, false, Option, none, some, List, [], ◌∷◌, length,
  get_or, set, get_or-set, length-set, arith, Option-cases, inl, inr,
}
use virtual_waiting_room.Prelude.Result.{Result, ok, err}
use virtual_waiting_room.Assembly.{shards}
use virtual_waiting_room.Items.Attributes.{Item, shard_index_of, shard_count_of}
use virtual_waiting_room.Items.Shards.{zeros, zeros_lem, shard_index_of-lt, last_count}
use virtual_waiting_room.Controller.Pass.{StoreError}

-- The loop of the fold, with the array so far.
unfoldable pub arrivals_loop : List Item → List ℕ → Result (List ℕ) StoreError
arrivals_loop [] arrivals = ok arrivals
arrivals_loop (item ∷ items) arrivals = elim (shard_index_of item) [
  | none ↦ arrivals_loop items arrivals
  | some shard ↦ elim (shard_count_of item) [
    | none ↦ err (record { text = "arrivals item has an unreadable count" })
    | some count ↦ arrivals_loop items (set arrivals shard count)
  ]
]

unfoldable pub arrivals_from_shard_items : List Item → Result (List ℕ) StoreError
arrivals_from_shard_items items = arrivals_loop items zeros

abbrev if_complete : Bool → List ℕ → Result (List ℕ) StoreError
if_complete true arrivals = ok arrivals
if_complete false arrivals = err (record { text = "arrivals read incomplete; retry" })

abbrev folded : Bool → Result (List ℕ) StoreError → Result (List ℕ) StoreError
folded complete (err e) = err e
folded complete (ok arrivals) = if_complete complete arrivals

-- A batch that failed is the error that it failed with.
unfoldable pub read_arrivals : Result (List Item × Bool) StoreError → Result (List ℕ) StoreError
read_arrivals (err e) = err e
read_arrivals (ok (items, complete)) = folded complete (arrivals_from_shard_items items)

-- An item of a readable shard has a readable count.
abbrev IsCounted : Option ℕ → Item → Type 0
IsCounted none item = Unit {0}
IsCounted (some s) item = (n : ℕ) × (shard_count_of item ≡ some n)

abbrev pub AllCounted : List Item → Type 0
AllCounted [] = Unit {0}
AllCounted (item ∷ items) = IsCounted (shard_index_of item) item × AllCounted items

arrivals_loop_lem :
    (items : List Item) (xs counts : List ℕ) (s : ℕ)
    → length xs ≡ shards
    → arrivals_loop items xs ≡ ok counts
    → (AllCounted items × (length counts ≡ shards))
      × (get_or counts s 0 ≡ last_count items s (get_or xs s 0))
unfolding arrivals_loop
arrivals_loop_lem [] xs counts s ten e =
    let same : xs ≡ counts = cc in ((tt, rw (← same) ten), rw same refl)
arrivals_loop_lem (item ∷ items) xs counts s ten e = elim (Option-cases (shard_index_of item)) [
  | inl none_s ↦
      let rest = arrivals_loop_lem items xs counts s ten (rw (arrivals_loop, none_s) at e) in
      rw none_s (((tt, rest.0.0), rest.0.1), rest.1)
  | inr (i, some_s) ↦ elim (Option-cases (shard_count_of item)) [
    | inl none_n ↦ absurd (let q = rw (arrivals_loop, some_s, none_n) at e in cc)
    | inr (n, some_n) ↦
        let inside = shard_index_of-lt item i some_s in
        let rest =
          arrivals_loop_lem items (set xs i n) counts s (length-set xs i n ∙ ten)
            (rw (arrivals_loop, some_s, some_n) at e) in
        rw (some_s, some_n)
          (
            (((n, refl), rest.0.0), rest.0.1),
            rest.1 ∙ ap (last_count items s) (get_or-set xs i n s (omega arith)),
          )
  ]
]

arrivals_loop_total :
    (items : List Item) (xs : List ℕ)
    → AllCounted items
    → (counts : List ℕ) × (arrivals_loop items xs ≡ ok counts)
unfolding arrivals_loop
arrivals_loop_total [] xs r = (xs, refl)
arrivals_loop_total (item ∷ items) xs r = elim (Option-cases (shard_index_of item)) [
  | inl none_s ↦ rw (arrivals_loop, none_s) (arrivals_loop_total items xs r.1)
  | inr (i, some_s) ↦
      let counted : (n : ℕ) × (shard_count_of item ≡ some n) = rw some_s at r.0 in
      rw (arrivals_loop, some_s, counted.1) (arrivals_loop_total items (set xs i counted.0) r.1)
]

folded_whole : (r : Result (List ℕ) StoreError) → folded true r ≡ r
folded_whole (ok arrivals) = refl
folded_whole (err e) = refl

folded_part : (r : Result (List ℕ) StoreError) (counts : List ℕ) → folded false r ≡ ok counts → ⊥
folded_part (ok arrivals) counts e = cc
folded_part (err x) counts e = cc

-- A complete batch of arrival items is read exactly when every item that says which shard it is
-- also says its count; the count of a shard is then the one that the last item of the shard says,
-- and 0 where there is none. An incomplete batch is always an error, so no pass measures a part of
-- the arrivals.
pub read_arrivals_lem :
    (items : List Item) (complete : Bool)
    → ((counts : List ℕ) × (read_arrivals (ok (items, complete)) ≡ ok counts)
        × (length counts ≡ shards)
        × ((s : ℕ) → get_or counts s 0 ≡ last_count items s 0))
      ↔ ((complete ≡ true) × AllCounted items)
unfolding read_arrivals arrivals_from_shard_items
read_arrivals_lem items true = (
  λ (counts, e, ten, each).
      (refl, (arrivals_loop_lem items zeros counts 0 refl (sym (folded_whole _) ∙ e)).0.0),
  λ (e, r).
      let (counts, q) = arrivals_loop_total items zeros r in
      (
        counts,
        rw q refl,
        (arrivals_loop_lem items zeros counts 0 refl q).0.1,
        λ s.
            (arrivals_loop_lem items zeros counts s refl q).1
            ∙ ap (last_count items s) (zeros_lem s),
      ),
)
read_arrivals_lem items false = (
  λ (counts, e, ten, each). absurd (folded_part (arrivals_loop items zeros) counts e),
  λ (e, r). absurd cc,
)
