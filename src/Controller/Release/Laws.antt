-- ===== src/Controller/Release/Laws.antt =====
-- `compute_release` of crates/controller/src/lib.rs: the cursor, the bound on a release and the
-- measurement of the next pass.
use virtual_waiting_room.Prelude.{
  ℕ, ◌+◌, ◌-◌, ◌*◌, ◌^◌, ◌≤◌, ◌≡◌, ◌⊎◌, inl, inr, refl, ap, ◌∙◌, true, ◌||◌, Option, List, [], ◌∷◌,
  min, max, arith, ◌==◌, if◌then◌else◌, u64_max, u32_max, Bool-cases,
}
use virtual_waiting_room.Assembly.Laws.{sum}
use virtual_waiting_room.Controller.Float.{Float, IsRounding}
use virtual_waiting_room.Controller.Release.{
  ReleaseInputs, NoShowState, sum_arrivals_loop, sum_arrivals, target_release_per_interval,
  released_last, prior_open_pass_is_stale, advance, bounded_release, max_correction_multiple,
  unwrap_rate, requested, floored, compute_release,
}

sum_arrivals_loop_lem :
    (total : ℕ) (xs : List ℕ)
    → total ≤ u64_max
    → sum_arrivals_loop total xs ≡ min (total + sum xs) u64_max
unfolding sum_arrivals_loop
sum_arrivals_loop_lem total [] h = omega arith
sum_arrivals_loop_lem total (x ∷ xs) h =
    omega (arith, sum_arrivals_loop_lem (min (total + x) u64_max) xs (omega arith))

-- The arrivals of all shards are added up, and a total that does not fit a `u64` stops at the
-- largest.
pub sum_arrivals_lem : (xs : List ℕ) → sum_arrivals xs ≡ min (sum xs) u64_max
unfolding sum_arrivals
sum_arrivals_lem xs = omega (arith, sum_arrivals_loop_lem 0 xs (omega arith))

advance_lem :
    (inputs : ReleaseInputs) (p : ℕ)
    → inputs.serving_counter ≤ u64_max
    → inputs.queue_counter ≤ u64_max
    → (inputs.serving_counter ≤ advance inputs p)
      × (advance inputs p ≤ max inputs.serving_counter (inputs.queue_counter + 1))
      × (advance inputs p ≤ u64_max)
      × (advance inputs p ≤ inputs.serving_counter + p)
unfolding advance
advance_lem inputs p hs hq = omega arith

module _ (fl : Float) where
  -- One pass moves the cursor forward or leaves it, stops it one past the last position issued, and
  -- reports the distance that the cursor moved; nothing wraps. The counters read are those of a
  -- `u64`.
  pub compute_release-cursor :
      (inputs : ReleaseInputs) (prev : Option (NoShowState fl)) (now : ℕ)
      → inputs.serving_counter ≤ u64_max
      → inputs.queue_counter ≤ u64_max
      → let d = compute_release fl inputs prev now in
        (d.next_serving_counter ≡ inputs.serving_counter + d.release)
        × (d.next_serving_counter ≤ max inputs.serving_counter (inputs.queue_counter + 1))
        × (d.next_serving_counter ≤ u64_max)
        × (d.previous_serving_counter ≡ inputs.serving_counter)
        × (d.last_open_pass_at ≡ now)
  unfolding compute_release
  compute_release-cursor inputs prev now hs hq =
      let facts = advance_lem inputs (requested fl inputs prev now).0 hs hq in
      (omega arith, omega arith, omega arith, refl, refl)

  -- With nothing released in the last interval, or after a hold, the pass releases the raw target,
  -- as far as the line reaches, and carries the old rate on; the counters fit a `u64`.
  pub compute_release_unmeasured :
      (inputs : ReleaseInputs) (prev : Option (NoShowState fl)) (now : ℕ)
      → inputs.serving_counter ≤ u64_max
      → inputs.queue_counter ≤ u64_max
      → (released_last inputs ≡ 0) ⊎ (prior_open_pass_is_stale inputs now ≡ true)
      → let d = compute_release fl inputs prev now in
        (d.next_serving_counter ≡ advance inputs (target_release_per_interval inputs.target_rate))
        × (d.no_show.smoothed_rate ≡ floored fl (unwrap_rate fl prev))
  unfolding compute_release requested
  compute_release_unmeasured inputs prev now hs hq (inl e) = ground arith
  compute_release_unmeasured inputs prev now hs hq (inr e) = ground arith

  cast_le :
      (y : fl.F) (bound : ℕ)
      → IsRounding fl (2 ^ 53)
      → fl.to_u64 y ≤ bound
      → (if fl.le y fl.nought
          then 0
          else if fl.le (fl.of_u64 u64_max) y
          then u64_max
          else fl.to_u64 y)
        ≤ bound
  cast_le y bound law h = elim (Bool-cases (fl.le (fl.of_u64 u64_max) y)) [
    | inl big ↦ let top = law.saturates y big in ground arith
    | inr small ↦ ground arith
  ]

  -- A value that is not above an integer is released as no more than it.
  rounded_le :
      (x : fl.F) (bound : ℕ)
      → IsRounding fl (2 ^ 53)
      → bound ≤ 2 ^ 53
      → fl.le x (fl.of_u64 bound) ≡ true
      → (if fl.le (fl.round x) fl.nought
          then 0
          else if fl.le (fl.of_u64 u64_max) (fl.round x)
          then u64_max
          else fl.to_u64 (fl.round x))
        ≤ bound
  rounded_le x bound law exact le =
      cast_le (fl.round x) bound law
        (law.casts (fl.round x) bound exact (law.rounds x bound exact le))

  bounded_release_lem :
      (target : ℕ) (rate : fl.F)
      → IsRounding fl (2 ^ 53)
      → 2 * target ≤ 2 ^ 53
      → bounded_release fl target rate ≤ 2 * target
  unfolding bounded_release max_correction_multiple
  bounded_release_lem target rate law small =
      let twice : fl.mul (fl.of_u64 target) (fl.of_u64 2) ≡ fl.of_u64 (2 * target) =
        law.product target 2 (omega (arith, small)) ∙ ap fl.of_u64 (omega arith) in
      elim (Bool-cases (fl.le (fl.sub fl.one rate) fl.nought)) [
        | inl none_came ↦
            rw (none_came, twice)
              (rounded_le _ (2 * target) law small (law.reflexive (2 * target) small))
        | inr some_came ↦
            rw (some_came, twice)
              (rounded_le _ (2 * target) law small (law.below _ (2 * target) small))
      ]

  requested-bound :
      (inputs : ReleaseInputs) (prev : Option (NoShowState fl)) (now : ℕ)
      → IsRounding fl (2 ^ 53)
      → inputs.target_rate ≤ u32_max
      → (requested fl inputs prev now).0 ≤ 2 * (inputs.target_rate * 10)
  unfolding requested target_release_per_interval
  requested-bound inputs prev now law rate =
      let target : ℕ = inputs.target_rate * 10 in
      let exact : min target u64_max ≡ target = omega arith in
      elim (Bool-cases (released_last inputs == 0 || prior_open_pass_is_stale inputs now)) [
        | inl unmeasured ↦ rw unmeasured (omega arith)
        | inr measured ↦ rw (measured, exact) (bounded_release_lem target _ law (omega arith))
      ]

  -- Whatever arrivals were measured, one pass releases at most twice the target of the interval,
  -- which is ten times the operator's rate, a `u32`: where the
  -- floating-point operations round as `IsRounding` says, and the counters fit a `u64`.
  pub compute_release-bound :
      (inputs : ReleaseInputs) (prev : Option (NoShowState fl)) (now : ℕ)
      → IsRounding fl (2 ^ 53)
      → inputs.target_rate ≤ u32_max
      → inputs.serving_counter ≤ u64_max
      → inputs.queue_counter ≤ u64_max
      → (compute_release fl inputs prev now).release ≤ 2 * (inputs.target_rate * 10)
  unfolding compute_release
  compute_release-bound inputs prev now law rate hs hq =
      let asked = requested-bound inputs prev now law rate in
      let facts = advance_lem inputs (requested fl inputs prev now).0 hs hq in omega arith

  -- What the next pass measures as released, from the counters that this pass writes, is what this
  -- pass released: in full from a cursor of 1 or more, and one less from a cursor of 0; the
  -- counters fit a `u64`.
  pub released_last-compute_release :
      (inputs next : ReleaseInputs) (prev : Option (NoShowState fl)) (now : ℕ)
      → inputs.serving_counter ≤ u64_max
      → inputs.queue_counter ≤ u64_max
      → let d = compute_release fl inputs prev now in
        next.serving_counter ≡ d.next_serving_counter
        → next.last_serving_counter ≡ d.previous_serving_counter
        → released_last next ≡ d.release - (1 - inputs.serving_counter)
  unfolding released_last
  released_last-compute_release inputs next prev now hs hq es el =
      let facts = compute_release-cursor inputs prev now hs hq in omega arith
