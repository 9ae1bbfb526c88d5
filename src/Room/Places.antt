-- ===== src/Room/Places.antt =====
-- The places in line of an event, over every run of the Lambdas beside one another.
use Prim.Native.String.{String}
use virtual_waiting_room.Prelude.{
  ℕ, ◌≡◌, ◌⊎◌, inl, inr, ap, sym, ◌∙◌, Option, none, some, List, arith,
}
use virtual_waiting_room.Prelude.Result.{ok}
use virtual_waiting_room.Items.Counters.{Counters}
use virtual_waiting_room.Items.Resolve.{at}
use virtual_waiting_room.Items.Resolve.Laws.{IsOpened, resolve_prequeue-distinct}
use virtual_waiting_room.Tables.{Tables}
use virtual_waiting_room.AssignPosition.Live.Line.{line_end}
use virtual_waiting_room.Room.{
  IsSameOpen, IsFresh, Step, joined, opened, asked, operated, Reach, here, next, held_by,
}
use virtual_waiting_room.Room.Line.{find_position-In, IsLine-one, All-In}
use virtual_waiting_room.Room.Held.{IsPlaced}
use virtual_waiting_room.Room.Cases.{
  HasRow, HasRegistration, held-cases, unopened-held, registered-one,
}
use virtual_waiting_room.Room.Joins.{process_batch-IsSound}
use virtual_waiting_room.Room.Opens.{HasOpened-IsOpened, open_event-IsSound}
use virtual_waiting_room.Room.Admits.{admit-IsSound}
use virtual_waiting_room.Room.Sound.{HasOpened, IsBefore, IsAfter, IsSound, IsFresh-IsSound}

-- A write of the operator or of the controller keeps the tables sound.
operated-IsSound :
    (hmac : List ℕ → List ℕ → List ℕ) (c c' : Counters) (t : Tables)
    → t.counters ≡ some c
    → IsSameOpen c c'
    → IsSound hmac t
    → IsSound hmac (record t { counters = some c' })
operated-IsSound hmac c c' t stored same sound = record {
  ten = sound.ten;
  register = sound.register;
  line =
      let ends : c'.queue_counter ≡ line_end t = rw stored (same.same_line) in rw ends (sound.line);
  era = by_era sound.era;
}
  where
    by_item :
        (counts seed : List ℕ) (o : Option Counters)
        → o ≡ some c
        → HasOpened counts seed o
        → HasOpened counts seed (some c')
    by_item counts seed none e h = absurd h
    by_item counts seed (some x) e (was, behind) =
        let one : x ≡ c = cc in
        let was' : IsOpened counts seed c = rw (← one) was in
        (
          record {
            ten = was'.ten;
            fits = was'.fits;
            has_seed = same.same_seed ∙ was'.has_seed;
            has_offsets = same.same_offsets ∙ was'.has_offsets;
            has_count = same.same_count ∙ was'.has_count;
          },
          let line = same.same_line in rw line (rw (← one) behind),
        )

    by_era :
        (IsBefore t ⊎ ((counts : List ℕ) × (seed : List ℕ) × IsAfter hmac counts seed t))
        → IsBefore (record t { counters = some c' })
          ⊎ ((counts : List ℕ) × (seed : List ℕ) × IsAfter hmac counts seed
                (record t { counters = some c' }))
    by_era (inl (closed, nobody)) = inl (same.same_seed ∙ rw stored at closed, nobody)
    by_era (inr (counts, seed, (item, placed))) =
        inr (counts, seed, (by_item counts seed t.counters stored item, placed))

module _ (hmac : List ℕ → List ℕ → List ℕ) (sha256_base64url : String → String) where
  Step-IsSound : {t u : Tables} → Step hmac sha256_base64url t u → IsSound hmac t → IsSound hmac u
  Step-IsSound (joined now from_str event_id shard records t inside line_fits shard_fits) sound =
      process_batch-IsSound hmac now from_str event_id shard records t inside line_fits shard_fits
        sound
  Step-IsSound (opened seed t) sound = open_event-IsSound hmac seed t sound
  Step-IsSound (asked minting id secret viewer_ip now entropy t) sound =
      admit-IsSound hmac sha256_base64url minting id secret viewer_ip now
        (record { tables = t; entropy = entropy }) sound
  Step-IsSound (operated c c' t stored same) sound = operated-IsSound hmac c c' t stored same sound

  pub Reach-IsSound :
      {s t : Tables} → Reach hmac sha256_base64url s t → IsSound hmac s → IsSound hmac t
  Reach-IsSound here sound = sound
  Reach-IsSound (next reach step) sound = Step-IsSound step (Reach-IsSound reach sound)

module _ (hmac : List ℕ → List ℕ → List ℕ) (t : Tables) (sound : IsSound hmac t) (c : Counters)
    (stored : t.counters ≡ some c) (id id' : String) (p : ℕ) where
  row_and_registration :
      (counts seed : List ℕ)
      → IsAfter hmac counts seed t
      → HasRow hmac id t c p
      → HasRegistration hmac id' t c p
      → id ≡ id'
  row_and_registration counts seed (item, placed) (row, found, place)
        (reg', missing, found', place') =
      let was = HasOpened-IsOpened counts seed t.counters c item stored in
      let (there, mine) = find_position-In id t.positions row found in
      by_place was mine (All-In (IsPlaced hmac counts seed t.prequeue) t.positions row placed there)
    where
      by_place :
          IsOpened counts seed c
          → row.request_id ≡ id
          → IsPlaced hmac counts seed t.prequeue row
          → id ≡ id'
      by_place was mine (inl past) = absurd (
          omega
            (arith, (resolve_prequeue-distinct hmac counts seed c was reg' reg' p place' place').0))
      by_place was mine (inr (reg, own, resolves)) =
          sym mine
          ∙ registered-one hmac counts seed c t row.request_id id' reg reg' p (sound.register) was
              own found' (resolves c was ∙ ap (λ q. ok (at q)) place) place'

  rows_one : HasRow hmac id t c p → HasRow hmac id' t c p → id ≡ id'
  rows_one (row, found, place) (row', found', place') =
      let (there, mine) = find_position-In id t.positions row found in
      let (there', mine') = find_position-In id' t.positions row' found' in
      let one =
        IsLine-one (line_end t) t.positions row row' (sound.line) there there'
          (place ∙ sym place') in
      sym mine ∙ ap (λ x. x.request_id) one ∙ mine'

  registrations_one :
      (counts seed : List ℕ)
      → IsAfter hmac counts seed t
      → HasRegistration hmac id t c p
      → HasRegistration hmac id' t c p
      → id ≡ id'
  registrations_one counts seed (item, placed) (reg, missing, found, place)
        (reg', missing', found', place') =
      registered-one hmac counts seed c t id id' reg reg' p (sound.register)
        (HasOpened-IsOpened counts seed t.counters c item stored) found found' place place'

module _ (hmac : List ℕ → List ℕ → List ℕ) (t : Tables) (sound : IsSound hmac t) (c : Counters)
    (stored : t.counters ≡ some c) (id id' : String) (p : ℕ) where
  sound-one : held_by hmac id t c ≡ ok p → held_by hmac id' t c ≡ ok p → id ≡ id'
  sound-one held held' = by_era sound.era
    where
      by_cases :
          (counts seed : List ℕ)
          → IsAfter hmac counts seed t
          → (HasRow hmac id t c p ⊎ HasRegistration hmac id t c p)
          → (HasRow hmac id' t c p ⊎ HasRegistration hmac id' t c p)
          → id ≡ id'
      by_cases counts seed after (inl row) (inl row') =
          rows_one hmac t sound c stored id id' p row row'
      by_cases counts seed after (inl row) (inr reg') =
          row_and_registration hmac t sound c stored id id' p counts seed after row reg'
      by_cases counts seed after (inr reg) (inl row') =
          sym (row_and_registration hmac t sound c stored id' id p counts seed after row' reg)
      by_cases counts seed after (inr reg) (inr reg') =
          registrations_one hmac t sound c stored id id' p counts seed after reg reg'

      by_era :
          (IsBefore t ⊎ ((counts : List ℕ) × (seed : List ℕ) × IsAfter hmac counts seed t))
          → id ≡ id'
      by_era (inl (closed, nobody)) =
          absurd (unopened-held hmac id t c p (rw stored at closed) nobody held)
      by_era (inr (counts, seed, after)) =
          by_cases counts seed after (held-cases hmac id t c p held)
            (held-cases hmac id' t c p held')

-- From a fresh event on, after any run of batches of joins, opens, requests for a session and
-- writes of the operator or the controller, each a whole invocation and with room in the `u64`
-- counters for each batch, two request ids whose admission would be decided on one place are the
-- same: no place in line is ever held by two visitors, whether they registered or joined live.
pub held_by-distinct :
    (hmac : List ℕ → List ℕ → List ℕ) (sha256_base64url : String → String) (s t : Tables)
    (c : Counters) (id id' : String) (p : ℕ)
    → IsFresh s
    → Reach hmac sha256_base64url s t
    → t.counters ≡ some c
    → held_by hmac id t c ≡ ok p
    → held_by hmac id' t c ≡ ok p
    → id ≡ id'
held_by-distinct hmac sha256_base64url s t c id id' p fresh reach stored held held' =
    sound-one hmac t (Reach-IsSound hmac sha256_base64url reach (IsFresh-IsSound hmac s fresh)) c
      stored id id' p held held'
