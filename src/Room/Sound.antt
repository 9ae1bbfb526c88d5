-- ===== src/Room/Sound.antt =====
-- What the tables of an event keep while the Lambdas run beside one another.
use virtual_waiting_room.Prelude.{ℕ, ◌≤◌, ◌≡◌, ◌⊎◌, inl, Option, none, some, List, [], length}
use virtual_waiting_room.Assembly.{shards}
use virtual_waiting_room.Assembly.Laws.{sum}
use virtual_waiting_room.Items.Counters.{Counters}
use virtual_waiting_room.Items.Resolve.Laws.{IsOpened}
use virtual_waiting_room.Tables.{Tables}
use virtual_waiting_room.AssignPosition.Live.Line.{HasLine}
use virtual_waiting_room.AssignPosition.Live.Register.Batch.{HasRegister}
use virtual_waiting_room.Room.{IsUnopened, IsFresh}
use virtual_waiting_room.Room.Line.{All}
use virtual_waiting_room.Room.Held.{IsPlaced}

-- The item is that of an event opened over `counts`, and the live line starts behind the cohort.
abbrev pub HasOpened : List ℕ → List ℕ → Option Counters → Type 0
HasOpened counts seed none = ⊥
HasOpened counts seed (some c) = IsOpened counts seed c × (sum counts ≤ c.queue_counter)

abbrev pub IsBefore : Tables → Type 0
IsBefore t = IsUnopened t.counters × (t.positions ≡ [])

abbrev pub IsAfter : (List ℕ → List ℕ → List ℕ) → List ℕ → List ℕ → Tables → Type 0
IsAfter hmac counts seed t =
    HasOpened counts seed t.counters × All (IsPlaced hmac counts seed t.prequeue) t.positions

-- Before the open nobody has a row of `Positions`. After it each place is one past the cohort or
-- the visitor's own in it. No two rows of either table share a place.
pub record IsSound (hmac : List ℕ → List ℕ → List ℕ) (t : Tables) : Type 0 where
  pub ten : length t.shard_counts ≡ shards
  pub register : HasRegister t
  pub line : HasLine t
  pub era : IsBefore t ⊎ ((counts : List ℕ) × (seed : List ℕ) × IsAfter hmac counts seed t)

pub IsFresh-IsSound : (hmac : List ℕ → List ℕ → List ℕ) (t : Tables) → IsFresh t → IsSound hmac t
IsFresh-IsSound hmac t fresh = record {
  ten = fresh.ten;
  register = rw (fresh.no_prequeue) tt;
  line = rw (fresh.no_positions) tt;
  era = inl (fresh.unopened, fresh.no_positions);
}
