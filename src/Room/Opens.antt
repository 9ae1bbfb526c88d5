-- ===== src/Room/Opens.antt =====
-- An open of crates/open_event beside the other Lambdas.
use virtual_waiting_room.Prelude.{
  ℕ, ◌≤◌, ◌≡◌, ◌⊎◌, inl, inr, refl, sym, Option, none, some, List, arith,
}
use virtual_waiting_room.Assembly.Laws.{sum}
use virtual_waiting_room.Items.Counters.{Counters}
use virtual_waiting_room.Items.Resolve.Laws.{IsOpened}
use virtual_waiting_room.Tables.{Tables}
use virtual_waiting_room.AssignPosition.Live.Line.{line_end}
use virtual_waiting_room.OpenEvent.{open_event, open_update, dynamo_store}
use virtual_waiting_room.OpenEvent.Change.{IsOpenOf, open_event-IsOpenOf}
use virtual_waiting_room.Room.Sound.{HasOpened, IsBefore, IsAfter, IsSound}

pub HasOpened-IsOpened :
    (counts seed : List ℕ) (o : Option Counters) (c : Counters)
    → HasOpened counts seed o
    → o ≡ some c
    → IsOpened counts seed c
HasOpened-IsOpened counts seed none c h e = absurd h
HasOpened-IsOpened counts seed (some x) c h e = rw (let q : x ≡ c = cc in sym q) (h.0)

-- The live line starts behind the cohort.
pub HasOpened-line_end :
    (counts seed : List ℕ) (t : Tables) (o : Option Counters)
    → t.counters ≡ o
    → HasOpened counts seed o
    → sum counts ≤ line_end t
HasOpened-line_end counts seed t none e h = absurd h
HasOpened-line_end counts seed t (some c) e h = rw e h.1

-- An open keeps the tables sound, and is refused where the event has been opened.
pub open_event-IsSound :
    (hmac : List ℕ → List ℕ → List ℕ) (seed : List ℕ) (t : Tables)
    → IsSound hmac t
    → IsSound hmac (open_event dynamo_store seed t).1
unfolding open_update
open_event-IsSound hmac seed t sound = changed _ (open_event-IsOpenOf seed t (sound.ten))
  where
    changed : (t' : Tables) → IsOpenOf seed t t' → IsSound hmac t'
    changed t' (inl same) = rw same sound
    changed t' (inr (c, stored, fresh, fits, written)) = by_era sound.era
      where
        by_era :
            (IsBefore t ⊎ ((counts : List ℕ) × (old : List ℕ) × IsAfter hmac counts old t))
            → IsSound hmac t'
        by_era (inl (closed, nobody)) = rw written (record {
          ten = sound.ten;
          register = sound.register;
          line = rw nobody tt;
          era = inr (
            t.shard_counts,
            seed,
            (
              (
                record {
                  ten = sound.ten;
                  fits = fits;
                  has_seed = refl;
                  has_offsets = refl;
                  has_count = refl;
                },
                omega arith,
              ),
              rw nobody tt,
            ),
          );
        })
        by_era (inr (counts, old, (item, placed))) =
            let was = HasOpened-IsOpened counts old t.counters c item stored in
            absurd (let seeded = was.has_seed in ground arith)
