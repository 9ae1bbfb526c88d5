-- ===== src/Controller/Pass/Race.antt =====
-- `DynamoStore` of crates/controller/src/dynamo.rs over the event's item: the guarded write that
-- two overlapping passes race for, and `run_pass` of crates/controller/src/lib.rs.
pub mod Overlap
use virtual_waiting_room.Prelude.{
  ℕ, ◌+◌, ◌≤◌, ◌≡◌, ◌≢◌, ◌⊎◌, refl, ap, ◌&&◌, Bool, true, Option, none, some, List, ◌==◌,
  if◌then◌else◌, u64_max, arith,
}
use virtual_waiting_room.Prelude.Result.{Result, ok, err, Sent, heard, refused, unheard}
use virtual_waiting_room.Ids.{
  Phase, idle, pre_queue, active, post_event, maintenance, StoredControl, AdmissionControl,
  admitting, held, fail_open, resolve,
}
use virtual_waiting_room.Assembly.{unwrap_or}
use virtual_waiting_room.Controller.Float.{Float}
use virtual_waiting_room.Controller.Release.{NoShowState, ReleaseDecision, compute_release}
use virtual_waiting_room.Controller.Release.Laws.{compute_release-cursor}
use virtual_waiting_room.Controller.Pass.{
  StoreError, ReleaseOutcome, advanced, lost_race, is_lost, PassOutcome, not_active, holding, ran,
  ControllerState, Store, run_pass, release_pass, after_read, report, gate, if_active,
}

module _ (fl : Float) where
  -- The attributes of the `Counters` item, and the arrival shards, that a pass reads or writes.
  pub record EventItem : Type 0 where
    pub phase : Phase
    pub stored_control : StoredControl
    pub fail_open_until : ℕ
    pub arrivals : List ℕ
    pub serving_counter : Option ℕ
    pub last_serving_counter : ℕ
    pub last_arrivals_total : ℕ
    pub queue_counter : ℕ
    pub target_rate : ℕ
    pub last_open_pass_at : ℕ
    pub no_show_rate : Option fl.F

  abbrev pub cursor : EventItem → ℕ
  cursor item = unwrap_or item.serving_counter 0

  -- A stored rate outside [0, 1] is read as no rate.
  abbrev pub read_rate : Option fl.F → Option (NoShowState fl)
  read_rate none = none
  read_rate (some r) =
      if fl.le fl.nought r && fl.le r fl.one then some (record { smoothed_rate = r }) else none

  unfoldable pub read_state : EventItem → ControllerState fl
  read_state item = record {
    phase = item.phase;
    stored_control = item.stored_control;
    fail_open_until = item.fail_open_until;
    inputs = record {
      arrivals = item.arrivals;
      last_arrivals_total = item.last_arrivals_total;
      last_serving_counter = item.last_serving_counter;
      serving_counter = cursor item;
      queue_counter = item.queue_counter;
      target_rate = item.target_rate;
      last_open_pass_at = item.last_open_pass_at;
    };
    prev_no_show = read_rate item.no_show_rate;
  }

  -- The condition `attribute_not_exists(serving_counter) OR serving_counter = :expected`.
  abbrev release_guard : Option ℕ → ℕ → Bool
  release_guard none expected = true
  release_guard (some serving) expected = serving == expected

  -- The conditional update on the item.
  unfoldable pub update_item : ReleaseDecision fl → ℕ → EventItem → ReleaseOutcome × EventItem
  update_item decision expected item =
      if release_guard item.serving_counter expected
      then (
        advanced,
        record item {
          serving_counter = some decision.next_serving_counter;
          last_serving_counter = decision.previous_serving_counter;
          last_arrivals_total = decision.arrivals_total;
          no_show_rate = some decision.no_show.smoothed_rate;
          last_open_pass_at = decision.last_open_pass_at;
        },
      )
      else (lost_race, item)

  abbrev pub answer : Sent → ReleaseOutcome → Result ReleaseOutcome StoreError
  answer heard race = ok race
  answer (refused why) race = err (record { text = why })
  answer (unheard why) race = err (record { text = why })

  -- The item before, and that after where the request reaches the table.
  abbrev pub reached : Sent → EventItem → EventItem → EventItem
  reached heard item item' = item'
  reached (refused why) item item' = item
  reached (unheard why) item item' = item'

  unfoldable pub write_release :
      Sent → ReleaseDecision fl → ℕ → EventItem → Result ReleaseOutcome StoreError × EventItem
  write_release sent decision expected item =
      let (race, item') = update_item decision expected item in
      (answer sent race, reached sent item item')

  abbrev pub answered : Option StoreError → EventItem → Result (ControllerState fl) StoreError
  answered none seen = ok (read_state seen)
  answered (some e) seen = err e

  -- The store of one pass, which reads what the item was at `seen`, or fails to.
  abbrev pub dynamo_store : EventItem → Option StoreError → Sent → Store fl EventItem
  dynamo_store seen failure sent = record {
    read_state = λ item. (answered failure seen, item);
    write_release = write_release sent;
  }

  abbrev pub pass :
      EventItem
      → Option StoreError
      → Sent
      → ℕ
      → EventItem
      → Result PassOutcome StoreError × EventItem
  pass seen failure sent now = run_pass fl (dynamo_store seen failure sent) now

  -- The release that a pass reports.
  abbrev pub reported : Result PassOutcome StoreError → ℕ
  reported (ok (ran released)) = released
  reported (ok (not_active phase)) = 0
  reported (ok (holding control)) = 0
  reported (err e) = 0

  abbrev pub decided : EventItem → ℕ → ReleaseDecision fl
  decided seen now = compute_release fl (read_state seen).inputs (read_state seen).prev_no_show now

  -- The release that may have been made without being reported.
  abbrev pub unreported : Sent → ℕ → ℕ
  unreported heard release = 0
  unreported (refused why) release = 0
  unreported (unheard why) release = release

module _ (fl : Float) {S : Type 0} (store : Store fl S) where
  -- A pass over an event that is not active, or whose control does not resolve to open at that
  -- moment, writes nothing and releases nobody: the world is as the read left it.
  pub run_pass_closed :
      (now released : ℕ) (world world' : S) (state : ControllerState fl)
      → store.read_state world ≡ (ok state, world')
      → (state.phase ≢ active)
        ⊎ (resolve state.stored_control state.fail_open_until now ≢ admitting)
      → ((run_pass fl store now world).1 ≡ world')
        × ((run_pass fl store now world).0 ≢ ok (ran released))
  unfolding run_pass
  run_pass_closed now released world world' state e h =
      closed state.phase (resolve state.stored_control state.fail_open_until now) refl refl
    where
      closed :
          (p : Phase) (c : AdmissionControl)
          → state.phase ≡ p
          → resolve state.stored_control state.fail_open_until now ≡ c
          → ((run_pass fl store now world).1 ≡ world')
            × ((run_pass fl store now world).0 ≢ ok (ran released))
      closed active admitting ep ec = absurd (ground arith)
      closed active held ep ec = rw (e, after_read, ep, ec) (refl, λ q. cc)
      closed active fail_open ep ec = rw (e, after_read, ep, ec) (refl, λ q. cc)
      closed idle c ep ec = rw (e, after_read, ep) (refl, λ q. cc)
      closed pre_queue c ep ec = rw (e, after_read, ep) (refl, λ q. cc)
      closed post_event c ep ec = rw (e, after_read, ep) (refl, λ q. cc)
      closed maintenance c ep ec = rw (e, after_read, ep) (refl, λ q. cc)
