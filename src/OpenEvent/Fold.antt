-- ===== src/OpenEvent/Fold.antt =====
-- `counts_from_shard_items` of crates/open_event/src/dynamo.rs: the fold of the shard items.
use virtual_waiting_room.Prelude.{
  ℕ, ◌≡◌, ◌↔◌, refl, ap, sym, suc, ◌∙◌, some, List, [], ◌∷◌, length, get_or, set, get_or-set,
  length-set, arith, Option-cases, inl, inr,
}
use virtual_waiting_room.Prelude.Result.{ok}
use virtual_waiting_room.Assembly.{shards}
use virtual_waiting_room.Items.Attributes.{Item, shard_index_of, shard_count_of}
use virtual_waiting_room.Items.Shards.{zeros, zeros_lem, shard_index_of-lt, last_count}
use virtual_waiting_room.OpenEvent.{counts_loop, counts_from_shard_items}

-- An item that says which shard it is, and its count.
abbrev IsReadableItem : Item → Type 0
IsReadableItem item =
    ((s : ℕ) × (shard_index_of item ≡ some s)) × ((n : ℕ) × (shard_count_of item ≡ some n))

abbrev pub IsReadable : List Item → Type 0
IsReadable [] = Unit {0}
IsReadable (item ∷ items) = IsReadableItem item × IsReadable items

counts_loop_lem :
    (items : List Item) (xs counts : List ℕ) (s : ℕ)
    → length xs ≡ shards
    → counts_loop items xs ≡ ok counts
    → (IsReadable items × (length counts ≡ shards))
      × (get_or counts s 0 ≡ last_count items s (get_or xs s 0))
unfolding counts_loop
counts_loop_lem [] xs counts s ten e =
    let same : xs ≡ counts = cc in ((tt, rw (← same) ten), rw same refl)
counts_loop_lem (item ∷ items) xs counts s ten e = elim (Option-cases (shard_index_of item)) [
  | inl none_s ↦ absurd (let q = rw (counts_loop, none_s) at e in cc)
  | inr (i, some_s) ↦ elim (Option-cases (shard_count_of item)) [
    | inl none_n ↦ absurd (let q = rw (counts_loop, some_s, none_n) at e in cc)
    | inr (n, some_n) ↦
        let inside = shard_index_of-lt item i some_s in
        let rest =
          counts_loop_lem items (set xs i n) counts s (length-set xs i n ∙ ten)
            (rw (counts_loop, some_s, some_n) at e) in
        (
          ((((i, some_s), (n, some_n)), rest.0.0), rest.0.1),
          rw (some_s, some_n)
              (rest.1 ∙ ap (last_count items s) (get_or-set xs i n s (omega arith))),
        )
  ]
]

counts_loop_total :
    (items : List Item) (xs : List ℕ)
    → IsReadable items
    → (counts : List ℕ) × (counts_loop items xs ≡ ok counts)
unfolding counts_loop
counts_loop_total [] xs r = (xs, refl)
counts_loop_total (item ∷ items) xs (((i, some_s), (n, some_n)), r) =
    rw (counts_loop, some_s, some_n) (counts_loop_total items (set xs i n) r)

abbrev pub IsLastCounts : List Item → List ℕ → Type 0
IsLastCounts items counts =
    (length counts ≡ shards) × ((s : ℕ) → get_or counts s 0 ≡ last_count items s 0)

-- Lists of one length with the same entries are the same.
get_or-ext :
    (xs ys : List ℕ) → length xs ≡ length ys → ((s : ℕ) → get_or xs s 0 ≡ get_or ys s 0) → xs ≡ ys
get_or-ext [] [] e each = refl
get_or-ext [] (y ∷ ys) e each = absurd (omega (arith, e))
get_or-ext (x ∷ xs) [] e each = absurd (omega (arith, e))
get_or-ext (x ∷ xs) (y ∷ ys) e each =
    let here : x ≡ y = each 0 in
    let rest : xs ≡ ys = get_or-ext xs ys (omega (arith, e)) (λ s. each (suc s)) in
    rw (here, rest) refl

-- The fold of the shard items gives these counts exactly when every item says which shard it is and
-- what its count is, and the counts are ten: of each shard the count that its last item says, and 0
-- where it has none. So where an item cannot be read the fold gives no counts, and is an error.
pub counts_from_shard_items_lem :
    (items : List Item) (counts : List ℕ)
    → (counts_from_shard_items items ≡ ok counts) ↔ (IsReadable items × IsLastCounts items counts)
unfolding counts_from_shard_items
counts_from_shard_items_lem items counts = (
  λ e. ((counts_loop_lem items zeros counts 0 refl e).0.0, given counts e),
  λ (r, last).
      let (ten, each) = last in
      let (counts', e) = counts_loop_total items zeros r in
      let (ten', each') = given counts' e in
      let same : counts' ≡ counts =
        get_or-ext counts' counts (ten' ∙ sym ten) (λ s. each' s ∙ sym (each s)) in
      rw (← same) e,
)
  where
    given : (xs : List ℕ) → counts_loop items zeros ≡ ok xs → IsLastCounts items xs
    given xs e = (
      (counts_loop_lem items zeros xs 0 refl e).0.1,
      λ s. (counts_loop_lem items zeros xs s refl e).1 ∙ ap (last_count items s) (zeros_lem s),
    )
