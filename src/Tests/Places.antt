-- ===== src/Tests/Places.antt =====
-- Runs of the permutation, the index space and the register.
use virtual_waiting_room.Prelude.{ℕ, ◌≤◌, ◌<◌, ◌≡◌, refl, none, u64_max, arith}
use virtual_waiting_room.Prelude.Result.{ok}
use virtual_waiting_room.Permutation.{
  Seed, leading_zeros, half_width, cycle_walk, round_function, enc_rounds, enc, prp,
}
use virtual_waiting_room.Permutation.Bijection.{prp-lt, prp-onto}
use virtual_waiting_room.Assembly.{shards, assign, pre_queue}
use virtual_waiting_room.Assembly.Laws.{index_space, assign_lem}
use virtual_waiting_room.Items.Resolve.{resolve_prequeue, at}
use virtual_waiting_room.Items.Resolve.Laws.{IsOpened, resolve_prequeue-onto}
use virtual_waiting_room.Tests.{
  sample_hmac, sample_seed, sample_counts, opened_counters, sample_row,
}

abbrev key : Seed
key = record { bytes = sample_seed }

five_fits : 5 ≤ u64_max
five_fits = omega arith

-- The order of a cohort of five.
five_places :
    (prp sample_hmac key 0 5 ≡ 3)
    × (prp sample_hmac key 1 5 ≡ 4)
    × (prp sample_hmac key 2 5 ≡ 1)
    × (prp sample_hmac key 3 5 ≡ 0)
    × (prp sample_hmac key 4 5 ≡ 2)
unfolding leading_zeros half_width cycle_walk round_function enc_rounds enc prp
five_places = (refl, refl, refl, refl, refl)

prp-lt_example : prp sample_hmac key 3 5 < 5
prp-lt_example = prp-lt sample_hmac key 5 five_fits 3 (omega arith)

prp-onto_example : (i : ℕ) × (i < 5) × (prp sample_hmac key i 5 ≡ 0)
prp-onto_example = prp-onto sample_hmac key 5 five_fits 0 (omega arith)

two_one : assign (index_space sample_counts) 2 1 ≡ pre_queue 3
two_one = assign_lem sample_counts 2 1 five_fits

sample-IsOpened : IsOpened sample_counts sample_seed opened_counters
sample-IsOpened = record {
  ten = refl;
  fits = five_fits;
  has_seed = refl;
  has_offsets = refl;
  has_count = refl;
}

resolve_prequeue-onto_example :
    (s : ℕ) × (l : ℕ) × (s < shards)
    × (resolve_prequeue sample_hmac opened_counters (sample_row "a" s l) ≡ ok (at 4))
resolve_prequeue-onto_example =
    resolve_prequeue-onto sample_hmac sample_counts sample_seed opened_counters sample-IsOpened "a"
      100 none 4 (omega arith)
