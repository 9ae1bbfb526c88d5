-- ===== src/Tests/Releases.antt =====
-- Runs of the controller, over floating-point numbers that are natural numbers.
use virtual_waiting_room.Prelude.{
  List, ℕ, ◌+◌, ◌-◌, ◌*◌, ◌/◌, ◌^◌, ◌≤◌, ◌≡◌, ◌≢◌, inr, refl, none, some, [], ◌∷◌, min, max, leb,
  ltb, u64_max, arith,
}
use virtual_waiting_room.Prelude.Result.{ok, heard, unheard}
use virtual_waiting_room.Ids.{active, open_control, paused_control, resolve}
use virtual_waiting_room.Items.Attributes.{Item, n}
use virtual_waiting_room.Controller.Float.{Float, IsRounding}
use virtual_waiting_room.Controller.Release.{
  ReleaseInputs, sum_arrivals_loop, sum_arrivals, target_release_per_interval, released_last,
  prior_open_pass_is_stale, advance, bounded_release, measured_rate, requested, floored,
  compute_release, max_correction_multiple,
}
use virtual_waiting_room.Controller.Release.Laws.{compute_release-bound}
use virtual_waiting_room.Controller.Pass.{is_lost, ran, Store, release_pass, run_pass}
use virtual_waiting_room.Controller.Pass.Race.{
  EventItem, cursor, read_state, update_item, write_release, dynamo_store, run_pass_closed,
}
use virtual_waiting_room.Controller.Pass.Race.Overlap.{History, done, passes, History-cursor}

abbrev natural : Float
natural = record {
  F = ℕ;
  nought = 0;
  one = 1;
  ewma_alpha = 0;
  ddb_number_min_positive = 1;
  add = λ x y. x + y;
  sub = λ x y. x - y;
  mul = λ x y. x * y;
  div = λ x y. x / y;
  fmin = λ x y. min x y;
  clamp = λ x low high. max low (min x high);
  round = λ x. x;
  lt = λ x y. ltb x y;
  le = λ x y. leb x y;
  of_u64 = λ x. x;
  to_u64 = λ x. min x u64_max;
}

natural-IsRounding : IsRounding natural (2 ^ 53)
natural-IsRounding = record {
  reflexive = λ n h. ground arith;
  product = λ m n h. refl;
  below = λ x n h. ground arith;
  rounds = λ x n h e. e;
  casts = λ x n h e. ground arith;
  saturates = λ x h. ground arith;
}

-- A line of 1000, ten a second, the cursor at 40 after a release of 30 of which 25 arrived.
abbrev inputs : ReleaseInputs
inputs = record {
  arrivals = 10 ∷ 15 ∷ [];
  last_arrivals_total = 0;
  last_serving_counter = 10;
  serving_counter = 40;
  queue_counter = 1000;
  target_rate = 10;
  last_open_pass_at = 100;
}

-- The same line at the start.
abbrev start : ReleaseInputs
start = record inputs { last_serving_counter = 0; serving_counter = 0; last_open_pass_at = 0 }

-- Nobody came, by whole numbers: the correction doubles the target of 100.
doubled : (compute_release natural inputs none 110).release ≡ 200
unfolding sum_arrivals_loop sum_arrivals target_release_per_interval released_last
    prior_open_pass_is_stale advance max_correction_multiple bounded_release measured_rate requested
    floored compute_release
doubled = refl

start_unmeasured : released_last start ≡ 0
unfolding released_last
start_unmeasured = refl

compute_release-bound_example : (compute_release natural inputs none 110).release ≤ 2 * (10 * 10)
compute_release-bound_example =
    compute_release-bound natural inputs none 110 natural-IsRounding (omega arith) (omega arith)
      (omega arith)

-- After the first pass the cursor is at 100, and the next pass measures 99.
abbrev after_start : ReleaseInputs
after_start = record start { serving_counter = 100; last_serving_counter = 0 }

start_moves : (compute_release natural start none 110).next_serving_counter ≡ 100
unfolding sum_arrivals_loop sum_arrivals target_release_per_interval released_last
    prior_open_pass_is_stale advance max_correction_multiple bounded_release measured_rate requested
    floored compute_release
start_moves = refl

start_stays : (compute_release natural start none 110).previous_serving_counter ≡ 0
unfolding compute_release
start_stays = refl

abbrev item : EventItem natural
item = record {
  phase = active;
  stored_control = open_control;
  fail_open_until = 0;
  arrivals = 10 ∷ 15 ∷ [];
  serving_counter = some 40;
  last_serving_counter = 10;
  last_arrivals_total = 0;
  queue_counter = 1000;
  target_rate = 10;
  last_open_pass_at = 100;
  no_show_rate = none;
}

abbrev advanced_item : EventItem natural
advanced_item = record item {
  serving_counter = some 240;
  last_serving_counter = 40;
  last_arrivals_total = 25;
  last_open_pass_at = 110;
  no_show_rate = some 1;
}

-- Three passes that read the same cursor: the first advances it, the second loses the race and its
-- answer is lost too, the third does not get to read.
overlap : History natural item 200 200 advanced_item
unfolding sum_arrivals_loop sum_arrivals target_release_per_interval released_last
    prior_open_pass_is_stale advance max_correction_multiple bounded_release measured_rate requested
    floored compute_release read_state write_release update_item is_lost release_pass run_pass
    resolve
overlap =
    passes item none heard 110 200 200 (omega arith) (omega arith) (λ e. cc) refl refl
      (passes item none (unheard "timeout") 111 0 200 (omega arith) (omega arith) (λ e. cc) refl
        refl
        (passes item (some (record { text = "throttled" })) heard 112 0 0 (omega arith)
          (omega arith) (λ e. cc) refl refl done))

History-cursor_example :
    (cursor natural item + 200 ≤ cursor natural advanced_item)
    × (cursor natural advanced_item ≤ cursor natural item + 200 + 200)
History-cursor_example = History-cursor natural overlap

abbrev paused_item : EventItem natural
paused_item = record item { stored_control = paused_control }

abbrev store : Store natural (EventItem natural)
store = dynamo_store natural paused_item none heard

run_pass_closed_example :
    ((run_pass natural store 110 paused_item).1 ≡ paused_item)
    × ((run_pass natural store 110 paused_item).0 ≢ ok (ran 200))
unfolding read_state resolve
run_pass_closed_example =
    run_pass_closed natural store 110 200 paused_item paused_item (read_state natural paused_item)
      refl (inr (λ e. cc))

abbrev arrival_items : List Item
arrival_items = (("s", n "3") ∷ ("n", n "15") ∷ []) ∷ (("n", n "9") ∷ []) ∷ []
