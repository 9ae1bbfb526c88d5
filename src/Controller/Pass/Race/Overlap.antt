-- ===== src/Controller/Pass/Race/Overlap.antt =====
-- Overlapping passes of crates/controller/src/lib.rs on one event's item.
use virtual_waiting_room.Prelude.{ℕ, ◌+◌, ◌≤◌, ◌≡◌, refl, ap, Option, none, some, u64_max, arith}
use virtual_waiting_room.Prelude.Result.{Result, Sent, heard, refused, unheard}
use virtual_waiting_room.Ids.{
  Phase, idle, pre_queue, active, post_event, maintenance, AdmissionControl, admitting, held,
  fail_open, resolve,
}
use virtual_waiting_room.Assembly.{unwrap_or}
use virtual_waiting_room.Controller.Float.{Float}
use virtual_waiting_room.Controller.Release.{ReleaseDecision}
use virtual_waiting_room.Controller.Release.Laws.{compute_release-cursor}
use virtual_waiting_room.Controller.Pass.{
  StoreError, ReleaseOutcome, advanced, lost_race, is_lost, PassOutcome, run_pass, release_pass,
  report, gate, if_active,
}
use virtual_waiting_room.Controller.Pass.Race.{
  EventItem, cursor, read_state, update_item, answer, reached, write_release, dynamo_store, pass,
  reported, decided, unreported,
}

module _ (fl : Float) where
  -- The history of one event's item while passes overlap. `passes` is the end of some pass: it read
  -- the item as it was at any earlier time, however stale, and while there is no cursor it can only
  -- have seen none. `elsewhere` is a write of any other component, none of which touches the cursor.
  -- The numbers are the sums of what the passes report, and of the releases of those whose write was
  -- not heard. A request that the SDK sends again is two passes with one reading, the first unheard.
  pub data History : EventItem fl → ℕ → ℕ → EventItem fl → Type 0 where
    done : {item : EventItem fl} → History item 0 0 item
    passes :
        {item later : EventItem fl} {total hidden : ℕ} (seen : EventItem fl)
        (failure : Option StoreError) (sent : Sent) (now sum unsure : ℕ)
        → cursor fl seen ≤ u64_max
        → seen.queue_counter ≤ u64_max
        → (item.serving_counter ≡ none → seen.serving_counter ≡ none)
        → sum ≡ reported fl (pass fl seen failure sent now item).0 + total
        → unsure ≡ unreported fl sent (decided fl seen now).release + hidden
        → History (pass fl seen failure sent now item).1 total hidden later
        → History item sum unsure later
    elsewhere :
        {item later : EventItem fl} {total hidden : ℕ} (item' : EventItem fl)
        → item'.serving_counter ≡ item.serving_counter
        → History item' total hidden later
        → History item total hidden later

  abbrev won : ReleaseDecision fl → ReleaseOutcome → ℕ
  won decision advanced = decision.release
  won decision lost_race = 0

  update_item_moves :
      (seen : EventItem fl) (now : ℕ) (item : EventItem fl)
      → cursor fl seen ≤ u64_max
      → seen.queue_counter ≤ u64_max
      → (item.serving_counter ≡ none → seen.serving_counter ≡ none)
      → let d = decided fl seen now in
        let out = update_item fl d (cursor fl seen) item in
        cursor fl out.1 ≡ cursor fl item + won d out.0
  unfolding update_item read_state
  update_item_moves seen now item hs hq fresh =
      let facts =
        compute_release-cursor fl (read_state fl seen).inputs (read_state fl seen).prev_no_show now
          hs hq in
      by_cursor item.serving_counter refl facts.0
    where
      by_cursor :
          (o : Option ℕ)
          → item.serving_counter ≡ o
          → (decided fl seen now).next_serving_counter
            ≡ cursor fl seen + (decided fl seen now).release
          → let d = decided fl seen now in
            let out = update_item fl d (cursor fl seen) item in
            cursor fl out.1 ≡ cursor fl item + won d out.0
      by_cursor none e f = let z : seen.serving_counter ≡ none = fresh e in ground arith
      by_cursor (some c) e f = ground arith

  -- The cursor moves by what is reported, and at most by the release beyond it that is not.
  abbrev IsMoved : Sent → ℕ → EventItem fl → Result PassOutcome StoreError × EventItem fl → Type 0
  IsMoved sent release item out =
      (cursor fl item + reported fl out.0 ≤ cursor fl out.1)
      × (cursor fl out.1 ≤ cursor fl item + reported fl out.0 + unreported fl sent release)

  release_pass-IsMoved :
      (seen : EventItem fl) (sent : Sent) (now : ℕ) (item : EventItem fl)
      → cursor fl seen ≤ u64_max
      → seen.queue_counter ≤ u64_max
      → (item.serving_counter ≡ none → seen.serving_counter ≡ none)
      → IsMoved sent
          (decided fl seen now).release
          item
          (release_pass fl (dynamo_store fl seen none sent) (read_state fl seen) now item)
  unfolding release_pass write_release is_lost read_state
  release_pass-IsMoved seen sent now item hs hq fresh =
      sent_as sent (update_item fl (decided fl seen now) (cursor fl seen) item)
        (update_item_moves seen now item hs hq fresh)
    where
      sent_as :
          (how : Sent) (out : ReleaseOutcome × EventItem fl)
          → cursor fl out.1 ≡ cursor fl item + won (decided fl seen now) out.0
          → IsMoved how (decided fl seen now).release item (
            report fl (dynamo_store fl seen none sent) (decided fl seen now) (answer fl how out.0),
            reached fl how item out.1,
          )
      sent_as heard (advanced, item') e = (omega (arith, e), omega (arith, e))
      sent_as heard (lost_race, item') e = (omega (arith, e), omega (arith, e))
      sent_as (refused why) (race, item') e = (omega arith, omega arith)
      sent_as (unheard why) (advanced, item') e = (omega (arith, e), omega (arith, e))
      sent_as (unheard why) (lost_race, item') e = (omega (arith, e), omega (arith, e))

  pass-IsMoved :
      (seen : EventItem fl) (failure : Option StoreError) (sent : Sent) (now : ℕ)
      (item : EventItem fl)
      → cursor fl seen ≤ u64_max
      → seen.queue_counter ≤ u64_max
      → (item.serving_counter ≡ none → seen.serving_counter ≡ none)
      → IsMoved sent (decided fl seen now).release item (pass fl seen failure sent now item)
  unfolding run_pass
  pass-IsMoved seen (some e) sent now item hs hq fresh = (omega arith, omega arith)
  pass-IsMoved seen none sent now item hs hq fresh =
      gated (read_state fl seen).phase
        (resolve (read_state fl seen).stored_control (read_state fl seen).fail_open_until now)
    where
      gated :
          (p : Phase) (c : AdmissionControl)
          → IsMoved sent (decided fl seen now).release item (
              if_active fl
                (dynamo_store fl seen none sent)
                p
                (gate fl
                  (dynamo_store fl seen none sent)
                  c
                  (release_pass fl (dynamo_store fl seen none sent) (read_state fl seen) now))
                item)
      gated active admitting = release_pass-IsMoved seen sent now item hs hq fresh
      gated active held = (omega arith, omega arith)
      gated active fail_open = (omega arith, omega arith)
      gated idle c = (omega arith, omega arith)
      gated pre_queue c = (omega arith, omega arith)
      gated post_event c = (omega arith, omega arith)
      gated maintenance c = (omega arith, omega arith)

  -- Whatever counters of a `u64` the passes read, however stale, however they overlap and whether
  -- their reads and writes fail, the cursor has moved by at least what the passes report to have
  -- released, and by no more than that and the releases of the writes whose answer was lost. So no
  -- reported release is lost and none takes the cursor back, and where every write is heard or refused
  -- the cursor has moved by exactly what is reported.
  pub History-cursor :
      {item later : EventItem fl} {total hidden : ℕ}
      → History item total hidden later
      → (cursor fl item + total ≤ cursor fl later)
        × (cursor fl later ≤ cursor fl item + total + hidden)
  History-cursor done = (omega arith, omega arith)
  History-cursor (passes {item} seen failure sent now sum unsure hs hq fresh es eu rest) =
      let (up, down) = pass-IsMoved seen failure sent now item hs hq fresh in
      let (up', down') = History-cursor rest in
      (omega (arith, es, up, up'), omega (arith, es, eu, down, down'))
  History-cursor (elsewhere {item} item' e rest) =
      let (up, down) = History-cursor rest in
      let same : cursor fl item' ≡ cursor fl item = ap (λ o. unwrap_or o 0) e in
      (omega (arith, up, same), omega (arith, down, same))
