-- ===== src/Items/Resolve/Laws.antt =====
-- `resolve_prequeue` of crates/wr-common/src/items.rs on the counters of an opened event.
use Prim.Native.String.{String}
use virtual_waiting_room.Possession.{SecretDigest}
use virtual_waiting_room.Prelude.{
  ℕ, ◌≤◌, ◌<◌, ◌≡◌, Option, some, List, arith, leb, if◌then◌else◌, length, get_or, u64_max, ◌∙◌,
  sym, ap, refl,
}
use virtual_waiting_room.Prelude.Result.{ok, err}
use virtual_waiting_room.Permutation.{Seed, prp}
use virtual_waiting_room.Permutation.Bijection.{prp-lt, prp-injective, prp-onto}
use virtual_waiting_room.Assembly.{shards, Assignment, pre_queue, live_join, assign}
use virtual_waiting_room.Assembly.Laws.{
  sum, prefix_sums, index_space, assign_lem, assign-lt, assign-injective, assign-onto,
}
use virtual_waiting_room.Items.Counters.{Counters, PreQueueItem}
use virtual_waiting_room.Items.Resolve.{at, straggler, bad_shard, resolve_prequeue, position_of}

-- The counters of an event that an open wrote from the ten shard counts.
pub record IsOpened (counts : List ℕ) (seed : List ℕ) (c : Counters) : Type 0 where
  pub ten : length counts ≡ shards
  pub fits : sum counts ≤ u64_max
  pub has_seed : c.shuffle_seed ≡ some seed
  pub has_offsets : c.prequeue_offsets ≡ some (prefix_sums 0 counts)
  pub has_count : c.participant_count ≡ some (sum counts)

module _ (hmac : List ℕ → List ℕ → List ℕ) (counts seed : List ℕ) (c : Counters)
    (opened : IsOpened counts seed c) where
  abbrev pub key : Seed
  key = record { bytes = seed }

  -- What `resolve_prequeue` computes on every row.
  pub resolve_lem :
      (row : PreQueueItem)
      → resolve_prequeue hmac c row ≡ (
          if leb shards row.s
          then err bad_shard
          else ok (
              position_of hmac
                (record { offsets = index_space counts; seed = key })
                (assign (index_space counts) row.s row.l)))
  unfolding resolve_prequeue
  resolve_lem row = rw (opened.has_seed, opened.has_offsets, opened.has_count)

  -- A row that resolves to a position holds a global index of the cohort, and the position is that
  -- of the index.
  resolve_inv :
      (row : PreQueueItem) (p : ℕ)
      → resolve_prequeue hmac c row ≡ ok (at p)
      → (i : ℕ) × (assign (index_space counts) row.s row.l ≡ pre_queue i)
        × (p ≡ prp hmac key i (sum counts))
  resolve_inv row p e = from (assign (index_space counts) row.s row.l) refl
    where
      from :
          (a : Assignment)
          → assign (index_space counts) row.s row.l ≡ a
          → (i : ℕ) × (assign (index_space counts) row.s row.l ≡ pre_queue i)
            × (p ≡ prp hmac key i (sum counts))
      from (pre_queue i) q = (i, q, ground (arith, resolve_lem row))
      from live_join q = absurd (ground (arith, resolve_lem row))

  -- In an opened event every position that a row of `PreQueue` resolves to lies in the cohort, and
  -- two rows that resolve to one position hold the same shard and the same local index.
  pub resolve_prequeue-distinct :
      (row row' : PreQueueItem) (p : ℕ)
      → resolve_prequeue hmac c row ≡ ok (at p)
      → resolve_prequeue hmac c row' ≡ ok (at p)
      → (p < sum counts) × (row.s ≡ row'.s) × (row.l ≡ row'.l)
  resolve_prequeue-distinct row row' p e e' =
      let (i, q, eq) = resolve_inv row p e in
      let (i', q', eq') = resolve_inv row' p e' in
      let below = assign-lt counts row.s row.l i opened.fits q in
      let same : i ≡ i' =
        prp-injective hmac key (sum counts) opened.fits i i' below
          (assign-lt counts row'.s row'.l i' opened.fits q') (sym eq ∙ eq') in
      let pair =
        assign-injective counts row.s row.l row'.s row'.l i opened.fits q
          (q' ∙ ap pre_queue (sym same)) in
      (rw eq (prp-lt hmac key (sum counts) opened.fits i below), pair.0, pair.1)

  -- Every position of the cohort, position 0 included, is that of some pair of a shard and a local
  -- index, and a row that holds the pair resolves to it: the raffle leaves no position below `N`
  -- unassigned.
  pub resolve_prequeue-onto :
      (r : String) (t : ℕ) (h : Option SecretDigest) (p : ℕ)
      → p < sum counts
      → (s : ℕ) × (l : ℕ) × (s < shards)
        × (resolve_prequeue hmac c (record { r = r; s = s; l = l; t = t; h = h }) ≡ ok (at p))
  resolve_prequeue-onto r t h p below =
      let (i, hi, e) = prp-onto hmac key (sum counts) opened.fits p below in
      let (s, l, hs, q) = assign-onto counts i opened.fits hi in
      let row : PreQueueItem = record { r = r; s = s; l = l; t = t; h = h } in
      (s, l, rw (← opened.ten) hs, ground (arith, resolve_lem row, opened.ten))

  -- A row whose local index its shard had not issued at the open is a straggler: it is given no
  -- position of the cohort.
  pub resolve_prequeue-straggler :
      (row : PreQueueItem)
      → row.s < shards
      → get_or counts row.s 0 ≤ row.l
      → resolve_prequeue hmac c row ≡ ok straggler
  resolve_prequeue-straggler row hs hl =
      ground (arith, resolve_lem row, assign_lem counts row.s row.l opened.fits)
