-- ===== src/Items/Shards.antt =====
-- The batch of shard items that crates/open_event and crates/controller fold into ten counts.
use virtual_waiting_room.Prelude.{
  ℕ, zero, suc, ◌<◌, ◌≡◌, refl, Option, none, some, List, [], ◌∷◌, get_or, ltb, ◌==◌, if◌then◌else◌,
  arith,
}
use virtual_waiting_room.Assembly.{shards}
use virtual_waiting_room.Items.Attributes.{
  Item, and_then, num, shard_index_attr, shard_index_of, shard_count_of,
}

abbrev said : ℕ → Option ℕ → Option ℕ → ℕ → ℕ
said s (some shard) (some count) before = if shard == s then count else before
said s (some shard) none before = before
said s none count before = before

-- What the items say of the shard `s`: the count of the last item that is of it.
abbrev pub last_count : List Item → ℕ → ℕ → ℕ
last_count [] s before = before
last_count (item ∷ items) s before =
    last_count items s (said s (shard_index_of item) (shard_count_of item) before)

-- The array that the fold starts from.
abbrev pub zeros : List ℕ
zeros = 0 ∷ 0 ∷ 0 ∷ 0 ∷ 0 ∷ 0 ∷ 0 ∷ 0 ∷ 0 ∷ 0 ∷ []

abbrev noughts : ℕ → List ℕ
noughts zero = []
noughts (suc k) = 0 ∷ noughts k

get_or-noughts : (k s : ℕ) → get_or (noughts k) s 0 ≡ 0
get_or-noughts zero s = refl
get_or-noughts (suc k) zero = refl
get_or-noughts (suc k) (suc s) = get_or-noughts k s

pub zeros_lem : (s : ℕ) → get_or zeros s 0 ≡ 0
zeros_lem = get_or-noughts 10

pub shard_index_of-lt : (item : Item) (s : ℕ) → shard_index_of item ≡ some s → s < shards
unfolding shard_index_of
shard_index_of-lt item s e = below (num item shard_index_attr) e
  where
    below :
        (o : Option ℕ)
        → and_then o (λ shard. if ltb shard shards then some shard else none) ≡ some s
        → s < shards
    below none q = cc
    below (some shard) q = ground arith
