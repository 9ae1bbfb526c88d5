-- ===== src/Controller/Release.antt =====
-- `compute_release` of crates/controller/src/lib.rs and what it calls.
pub mod Laws
use virtual_waiting_room.Prelude.{
  ℕ, ◌+◌, ◌-◌, ◌*◌, ◌||◌, ◌&&◌, Bool, true, false, Option, none, some, List, [], ◌∷◌, min, max, leb,
  ltb, ◌==◌, if◌then◌else◌, u64_max, saturating_add, saturating_sub, saturating_mul,
}
use virtual_waiting_room.Controller.Float.{Float}

-- `INTERVAL_SECS` and `STALE_OPEN_PASS_SECS`.
abbrev pub interval_secs : ℕ
interval_secs = 10

abbrev pub stale_open_pass_secs : ℕ
stale_open_pass_secs = 2 * interval_secs

pub record ReleaseInputs : Type 0 where
  pub arrivals : List ℕ
  pub last_arrivals_total : ℕ
  pub last_serving_counter : ℕ
  pub serving_counter : ℕ
  pub queue_counter : ℕ
  pub target_rate : ℕ
  pub last_open_pass_at : ℕ

-- The loop of `sum_arrivals`, with the running total.
unfoldable pub sum_arrivals_loop : ℕ → List ℕ → ℕ
sum_arrivals_loop total [] = total
sum_arrivals_loop total (count ∷ arrivals) = sum_arrivals_loop (saturating_add total count) arrivals

unfoldable pub sum_arrivals : List ℕ → ℕ
sum_arrivals arrivals = sum_arrivals_loop 0 arrivals

unfoldable pub target_release_per_interval : ℕ → ℕ
target_release_per_interval target_rate = saturating_mul target_rate interval_secs

-- The people that the cursor passed in the last interval.
unfoldable pub released_last : ReleaseInputs → ℕ
released_last inputs = saturating_sub inputs.serving_counter (max inputs.last_serving_counter 1)

unfoldable pub prior_open_pass_is_stale : ReleaseInputs → ℕ → Bool
prior_open_pass_is_stale inputs now =
    leb stale_open_pass_secs (saturating_sub now inputs.last_open_pass_at)

-- Where the cursor goes when `positions` are released: not past the end of the line, and never
-- back.
unfoldable pub advance : ReleaseInputs → ℕ → ℕ
advance inputs positions =
    let ceiling = saturating_add inputs.queue_counter 1 in
    max (min (saturating_add inputs.serving_counter positions) ceiling) inputs.serving_counter

module _ (fl : Float) where
  open fl use {
    F, nought, one, ewma_alpha, ddb_number_min_positive, add, sub, mul, div, fmin, clamp, round, lt,
    le, of_u64, to_u64,
  }

  pub record NoShowState : Type 0 where
    pub smoothed_rate : F

  pub record ReleaseDecision : Type 0 where
    pub release : ℕ
    pub next_serving_counter : ℕ
    pub previous_serving_counter : ℕ
    pub arrivals_total : ℕ
    pub no_show : NoShowState
    pub last_open_pass_at : ℕ

  -- `MAX_CORRECTION_MULTIPLE`, 2.0.
  unfoldable pub max_correction_multiple : F
  max_correction_multiple = of_u64 2

  unfoldable pub bounded_release : ℕ → F → ℕ
  unfolding max_correction_multiple
  bounded_release target smoothed_no_show =
      let target_f = of_u64 target in
      let cap = mul target_f max_correction_multiple in
      let denom = sub one smoothed_no_show in
      let raw = if le denom nought then cap else fmin (div target_f denom) cap in
      let rounded = round raw in
      let u64_max_f = of_u64 u64_max in
      if le rounded nought then 0 else if le u64_max_f rounded then u64_max else to_u64 rounded

  abbrev pub unwrap_rate : Option NoShowState → F
  unwrap_rate none = nought
  unwrap_rate (some state) = state.smoothed_rate

  abbrev smooth : Option NoShowState → F → F
  smooth none observed_no_show = observed_no_show
  smooth (some state) observed_no_show =
      add (mul ewma_alpha observed_no_show) (mul (sub one ewma_alpha) state.smoothed_rate)

  -- The measured branch: the smoothed rate after this interval.
  unfoldable pub measured_rate : ℕ → ℕ → Option NoShowState → F
  measured_rate observed_arrivals released prev =
      let arrival_fraction = clamp (div (of_u64 observed_arrivals) (of_u64 released)) nought one in
      let observed_no_show = sub one arrival_fraction in
      clamp (smooth prev observed_no_show) nought one

  -- The number asked for and the rate, before the rate is floored.
  unfoldable pub requested : ReleaseInputs → Option NoShowState → ℕ → ℕ × F
  unfolding sum_arrivals target_release_per_interval released_last prior_open_pass_is_stale
      measured_rate bounded_release
  requested inputs prev now =
      let arrivals_total = sum_arrivals inputs.arrivals in
      let observed_arrivals = saturating_sub arrivals_total inputs.last_arrivals_total in
      let released = released_last inputs in
      let target = target_release_per_interval inputs.target_rate in
      if released == 0 || prior_open_pass_is_stale inputs now
      then (target, unwrap_rate prev)
      else (let smoothed = measured_rate observed_arrivals released prev in
          (bounded_release target smoothed, smoothed))

  unfoldable pub floored : F → F
  floored smoothed =
      if lt nought smoothed && lt smoothed ddb_number_min_positive then nought else smoothed

  unfoldable pub compute_release : ReleaseInputs → Option NoShowState → ℕ → ReleaseDecision
  unfolding floored advance
  compute_release inputs prev now =
      let (positions, smoothed) = requested inputs prev now in
      let next_serving_counter = advance inputs positions in
      record {
        release = saturating_sub next_serving_counter inputs.serving_counter;
        next_serving_counter = next_serving_counter;
        previous_serving_counter = inputs.serving_counter;
        arrivals_total = sum_arrivals inputs.arrivals;
        no_show = record { smoothed_rate = floored smoothed };
        last_open_pass_at = now;
      }
