-- ===== src/Assembly/Laws.antt =====
-- `from_counts` and `assign` of crates/wr-common/src/permutation/assembly.rs on ten shard counts.
use virtual_waiting_room.Prelude.{
  ℕ, zero, suc, ◌+◌, ◌-◌, ◌≤◌, ◌<◌, ◌≡◌, inl, inr, refl, ap, ◌∙◌, none, some, List, [], ◌∷◌, leb,
  ltb, if◌then◌else◌, length, get_elem?, get_or, u64_max, arith, Bool-cases,
}
use native.Mathlib.Decide.{dec_lt}
use virtual_waiting_room.Prelude.Result.{ok, err}
use virtual_waiting_room.Assembly.{
  CohortOffsets, pre_queue, live_join, overflow, from_counts_loop, from_counts, shard_count,
  unwrap_or, assign,
}

abbrev pub sum : List ℕ → ℕ
sum [] = 0
sum (x ∷ xs) = x + sum xs

-- The sum of the first `s` numbers.
abbrev pub sum_below : List ℕ → ℕ → ℕ
sum_below [] s = 0
sum_below (x ∷ xs) zero = 0
sum_below (x ∷ xs) (suc s) = x + sum_below xs s

-- The sums before each number, from `r` on.
abbrev pub prefix_sums : ℕ → List ℕ → List ℕ
prefix_sums r [] = []
prefix_sums r (x ∷ xs) = r ∷ prefix_sums (r + x) xs

abbrev pub index_space : List ℕ → CohortOffsets
index_space counts = record { offsets = prefix_sums 0 counts; participant_count = sum counts }

from_counts_loop_fits :
    (counts : List ℕ) (r : ℕ)
    → r + sum counts ≤ u64_max
    → from_counts_loop counts r ≡ ok (prefix_sums r counts, r + sum counts)
unfolding from_counts_loop
from_counts_loop_fits [] r h = ground arith
from_counts_loop_fits (c ∷ counts) r h =
    ground (arith, from_counts_loop_fits counts (r + c) (omega arith))

from_counts_loop_overflows :
    (counts : List ℕ) (r : ℕ)
    → r ≤ u64_max
    → u64_max < r + sum counts
    → from_counts_loop counts r ≡ err overflow
unfolding from_counts_loop
from_counts_loop_overflows [] r h big = absurd (omega arith)
from_counts_loop_overflows (c ∷ counts) r h big = elim (Bool-cases (leb (r + c) u64_max)) [
  | inl fits ↦ rw fits (rw (from_counts_loop_overflows counts (r + c) (ground arith) (omega arith)))
  | inr over ↦ rw over
]

-- Opening folds the shard counts into their prefix sums and the cohort size, exactly when the size
-- fits a `u64`; otherwise it reports an overflow and wraps nothing.
pub from_counts_lem :
    (counts : List ℕ)
    → from_counts counts
      ≡ (if leb (sum counts) u64_max then ok (index_space counts) else err overflow)
unfolding from_counts
from_counts_lem counts = elim (Bool-cases (leb (sum counts) u64_max)) [
  | inl fits ↦ rw fits (ground (arith, from_counts_loop_fits counts 0))
  | inr over ↦ rw over (ground (arith, from_counts_loop_overflows counts 0))
]

sum_below-suc : (cs : List ℕ) (s : ℕ) → sum_below cs (suc s) ≡ sum_below cs s + get_or cs s 0
sum_below-suc [] s = refl
sum_below-suc (c ∷ []) zero = omega arith
sum_below-suc (c ∷ d ∷ cs) zero = omega arith
sum_below-suc (c ∷ cs) (suc s) = omega (arith, sum_below-suc cs s)

sum_below-le-sum : (cs : List ℕ) (s : ℕ) → sum_below cs s ≤ sum cs
sum_below-le-sum [] s = omega arith
sum_below-le-sum (c ∷ cs) zero = omega arith
sum_below-le-sum (c ∷ cs) (suc s) = omega (arith, sum_below-le-sum cs s)

get_elem?-prefix_sums :
    (cs : List ℕ) (r s : ℕ)
    → s < length cs
    → get_elem? (prefix_sums r cs) s ≡ some (r + sum_below cs s)
get_elem?-prefix_sums [] r s h = absurd (omega arith)
get_elem?-prefix_sums (c ∷ cs) r zero h = ground arith
get_elem?-prefix_sums (c ∷ cs) r (suc s) h =
    ground (arith, get_elem?-prefix_sums cs (r + c) s (omega arith))

get_elem?-prefix_sums_past :
    (cs : List ℕ) (r s : ℕ) → length cs ≤ s → get_elem? (prefix_sums r cs) s ≡ none
get_elem?-prefix_sums_past [] r s h = refl
get_elem?-prefix_sums_past (c ∷ cs) r zero h = absurd (omega arith)
get_elem?-prefix_sums_past (c ∷ cs) r (suc s) h =
    get_elem?-prefix_sums_past cs (r + c) s (omega arith)

next_offset :
    (cs : List ℕ) (r s : ℕ)
    → s < length cs
    → unwrap_or (get_elem? (prefix_sums r cs) (suc s)) (r + sum cs) ≡ r + sum_below cs (suc s)
next_offset [] r s h = absurd (omega arith)
next_offset (c ∷ []) r zero h = omega arith
next_offset (c ∷ d ∷ cs) r zero h = omega arith
next_offset (c ∷ cs) r (suc s) h = ground (arith, next_offset cs (r + c) s (omega arith))

get_or_past : (cs : List ℕ) (s : ℕ) → length cs ≤ s → get_or cs s 0 ≡ 0
get_or_past [] s h = refl
get_or_past (c ∷ cs) zero h = absurd (omega arith)
get_or_past (c ∷ cs) (suc s) h = get_or_past cs s (omega arith)

-- The count of a shard comes back from the offsets.
pub shard_count_lem :
    (counts : List ℕ) (s : ℕ)
    → s < length counts
    → shard_count (index_space counts) s ≡ some (get_or counts s 0)
unfolding shard_count
shard_count_lem counts s h =
    ground
      (arith, get_elem?-prefix_sums counts 0 s h, next_offset counts 0 s h, sum_below-suc counts s)

-- `assign` accepts exactly the local indices that a shard had issued, and numbers them from the
-- shard's offset on; every other is a live join, that of a shard out of range included. The cohort
-- size fits a `u64`.
pub assign_lem :
    (counts : List ℕ) (s l : ℕ)
    → sum counts ≤ u64_max
    → assign (index_space counts) s l
      ≡ (if ltb l (get_or counts s 0) then pre_queue (sum_below counts s + l) else live_join)
unfolding assign
assign_lem counts s l fits = elim (dec_lt s (length counts)) [
  | yes h ↦ ground (
    arith,
    get_elem?-prefix_sums counts 0 s h,
    shard_count_lem counts s h,
    sum_below-suc counts s,
    sum_below-le-sum counts (suc s),
  )
  | no h ↦ ground (
    arith,
    get_elem?-prefix_sums_past counts 0 s (omega arith),
    get_or_past counts s (omega arith),
  )
]

sum_below_mono : (cs : List ℕ) (s t : ℕ) → s < t → sum_below cs s + get_or cs s 0 ≤ sum_below cs t
sum_below_mono [] s t h = omega arith
sum_below_mono (c ∷ cs) s zero h = elim h [ ]
sum_below_mono (c ∷ cs) zero (suc t) h = omega arith
sum_below_mono (c ∷ cs) (suc s) (suc t) h = omega (arith, sum_below_mono cs s t (omega arith))

-- No two registrations that `assign` accepts share a global index, in a cohort that fits a `u64`.
pub assign-injective :
    (counts : List ℕ) (s l s' l' i : ℕ)
    → sum counts ≤ u64_max
    → assign (index_space counts) s l ≡ pre_queue i
    → assign (index_space counts) s' l' ≡ pre_queue i
    → (s ≡ s') × (l ≡ l')
assign-injective counts s l s' l' i fits e e' =
    let g = assign_lem counts s l fits in
    let g' = assign_lem counts s' l' fits in
    elim (dec_lt s s') [
      | yes lt ↦ absurd (ground (arith, sum_below_mono counts s s' lt))
      | no ge ↦ elim (dec_lt s' s) [
        | yes gt ↦ absurd (ground (arith, sum_below_mono counts s' s gt))
        | no le ↦
            let same : s ≡ s' = omega arith in (same, ground (arith, ap (sum_below counts) same))
      ]
    ]

-- The global index of a registration that `assign` accepts lies below the cohort size.
pub assign-lt :
    (counts : List ℕ) (s l i : ℕ)
    → sum counts ≤ u64_max
    → assign (index_space counts) s l ≡ pre_queue i
    → i < sum counts
assign-lt counts s l i fits e =
    let g = assign_lem counts s l fits in
    ground (arith, sum_below-suc counts s, sum_below-le-sum counts (suc s))

locate :
    (cs : List ℕ) (i : ℕ)
    → i < sum cs
    → (s : ℕ) × (l : ℕ) × (s < length cs) × (l < get_or cs s 0) × (sum_below cs s + l ≡ i)
locate [] i h = elim h [ ]
locate (c ∷ cs) i h = elim (dec_lt i c) [
  | yes inside ↦ (0, i, omega arith, inside, omega arith)
  | no past ↦
      let (s, l, hs, hl, e) = locate cs (i - c) (omega arith) in
      (suc s, l, omega arith, hl, omega arith)
]

-- Every index below a cohort size that fits a `u64` is that of some registration: there is no gap.
pub assign-onto :
    (counts : List ℕ) (i : ℕ)
    → sum counts ≤ u64_max
    → i < sum counts
    → (s : ℕ) × (l : ℕ) × (s < length counts) × (assign (index_space counts) s l ≡ pre_queue i)
assign-onto counts i fits h =
    let (s, l, hs, hl, e) = locate counts i h in
    (s, l, hs, assign_lem counts s l fits ∙ ground arith)
