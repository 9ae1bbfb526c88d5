-- ===== src/Items/Attributes.antt =====
-- A DynamoDB item as the source reads it: an attribute by its name, as a number, text, bytes or
-- list. `AttributeValue` is the SDK's; of its variants the source reads four.
use Prim.Native.String.{String}
use text.Mathlib.Text.{◌==◌ as str_eq}
use virtual_waiting_room.Prelude.{
  ℕ, ◌+◌, ◌-◌, ◌*◌, ◌&&◌, Option, none, some, List, [], ◌∷◌, leb, ltb, ◌==◌, if◌then◌else◌, u64_max,
  u32_max,
}
use virtual_waiting_room.Prelude.Result.{Result, ok, err}
use virtual_waiting_room.Prelude.Text.{codes, is_ascii_digit, all}
use virtual_waiting_room.Ids.{StoredControl, open_control, paused_control, parse_control}
use virtual_waiting_room.Assembly.{shards}

mutual
  pub data AttributeValue : Type 0 where
    n : String → AttributeValue
    s : String → AttributeValue
    b : List ℕ → AttributeValue
    l : AttributeValues → AttributeValue
    other : AttributeValue

  pub data AttributeValues : Type 0 where
    nil : AttributeValues
    cons : AttributeValue → AttributeValues → AttributeValues

abbrev pub Item : Type 0
Item = List (String × AttributeValue)

unfoldable pub get : String → Item → Option AttributeValue
get key [] = none
get key ((name, value) ∷ item) = if str_eq name key then some value else get key item

abbrev pub and_then {ℓ κ} : {A : Type ℓ} {B : Type κ} → Option A → (A → Option B) → Option B
and_then none f = none
and_then (some a) f = f a

abbrev pub as_n : AttributeValue → Option String
as_n (n text) = some text
as_n v = none

abbrev pub as_s : AttributeValue → Option String
as_s (s text) = some text
as_s v = none

abbrev pub as_b : AttributeValue → Option (List ℕ)
as_b (b bytes) = some bytes
as_b v = none

abbrev pub as_l : AttributeValue → Option AttributeValues
as_l (l vs) = some vs
as_l v = none

-- `str::parse` into an unsigned integer: an optional `+`, then one digit or more, and no value past
-- the type's largest.
unfoldable pub digits_value : ℕ → List ℕ → ℕ
digits_value acc [] = acc
digits_value acc (c ∷ cs) = digits_value (acc * 10 + (c - b'0')) cs

unfoldable pub parse_digits : ℕ → List ℕ → Option ℕ
unfolding digits_value
parse_digits largest [] = none
parse_digits largest (c ∷ cs) =
    if all is_ascii_digit (c ∷ cs) && leb (digits_value 0 (c ∷ cs)) largest
    then some (digits_value 0 (c ∷ cs))
    else none

unfoldable pub parse_unsigned : ℕ → List ℕ → Option ℕ
unfolding parse_digits
parse_unsigned largest [] = none
parse_unsigned largest (c ∷ cs) =
    if c == b'+' then parse_digits largest cs else parse_digits largest (c ∷ cs)

unfoldable pub parse_u64 : String → Option ℕ
unfolding parse_unsigned
parse_u64 text = parse_unsigned u64_max (codes text)

unfoldable pub parse_u32 : String → Option ℕ
unfolding parse_unsigned
parse_u32 text = parse_unsigned u32_max (codes text)

-- The closure `num` of `from_item`.
unfoldable pub num : Item → String → Option ℕ
unfolding get
num item key = and_then (and_then (get key item) as_n) parse_u64

abbrev or_paused : Result StoredControl String → StoredControl
or_paused (ok c) = c
or_paused (err e) = paused_control

unfoldable pub stored_control_of : Item → StoredControl
unfolding get
stored_control_of item = elim (and_then (get "admission_control" item) as_s) [
  | none ↦ open_control
  | some text ↦ if str_eq text "" then open_control else or_paused (parse_control text)
]

-- `SHARD_INDEX_ATTR` and `SHARD_COUNT_ATTR`.
abbrev pub shard_index_attr : String
shard_index_attr = "s"

abbrev pub shard_count_attr : String
shard_count_attr = "n"

unfoldable pub shard_index_of : Item → Option ℕ
shard_index_of item =
    and_then (num item shard_index_attr) (λ shard. if ltb shard shards then some shard else none)

unfoldable pub shard_count_of : Item → Option ℕ
shard_count_of item = num item shard_count_attr
