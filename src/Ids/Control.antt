-- ===== src/Ids/Control.antt =====
-- The fail-open window and the serving state of crates/wr-common/src/ids.rs.
use virtual_waiting_room.Prelude.{ℕ, ◌≤◌, ◌<◌, ◌≡◌, ◌↔◌, ◌≢◌, arith}
use virtual_waiting_room.Ids.{
  Phase, idle, pre_queue, active, post_event, maintenance, StoredControl, open_control,
  paused_control, fail_open, running, paused, bypassed, resolve, serving_state,
}

-- Once the window has lapsed the stored control is in force again, and stays so at every later
-- time, with no write.
pub resolve_lapsed :
    (c : StoredControl) (u now later : ℕ)
    → u ≤ now
    → now ≤ later
    → (resolve c u later ≡ resolve c 0 0) × (resolve c u later ≢ fail_open)
unfolding resolve
resolve_lapsed open_control u now later h k = ground arith
resolve_lapsed paused_control u now later h k = ground arith

-- What a visitor is shown, from the three things stored and the time: admission runs exactly in an
-- active event with an open control and no window; it is shown as paused exactly in an active event
-- that the operator holds; the room is bypassed exactly inside the window.
pub serving_state-resolve :
    (p : Phase) (c : StoredControl) (u now : ℕ)
    → let shown = serving_state p (resolve c u now) in
      ((shown ≡ running) ↔ ((p ≡ active) × (c ≡ open_control) × (u ≤ now)))
      × ((shown ≡ paused) ↔ ((p ≡ active) × (c ≡ paused_control) × (u ≤ now)))
      × ((shown ≡ bypassed) ↔ (now < u))
unfolding serving_state resolve
serving_state-resolve idle c u now = ground arith
serving_state-resolve pre_queue c u now = ground arith
serving_state-resolve active c u now = ground arith
serving_state-resolve post_event c u now = ground arith
serving_state-resolve maintenance c u now = ground arith
