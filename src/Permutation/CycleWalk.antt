-- ===== src/Permutation/CycleWalk.antt =====
-- The loop of `prp` in crates/wr-common/src/permutation/mod.rs, for any injective step of a domain.
use virtual_waiting_room.Prelude.{
  ℕ, zero, suc, ◌+◌, ◌-◌, ◌≤◌, ◌<◌, ◌≡◌, ◌≢◌, inl, inr, refl, ap, sym, ◌∙◌, none, some, arith, ltb,
  Bool-cases, Option-cases,
}
use native.Mathlib.Decide.{dec_le}
use virtual_waiting_room.Prelude.Finite.{pigeonhole}
use virtual_waiting_room.Permutation.{cycle_walk}

abbrev iter : (ℕ → ℕ) → ℕ → ℕ → ℕ
iter step zero v = v
iter step (suc k) v = step (iter step k v)

iter_front : (step : ℕ → ℕ) (k v : ℕ) → iter step k (step v) ≡ iter step (suc k) v
iter_front step zero v = refl
iter_front step (suc k) v = ap step (iter_front step k v)

-- What an injection of `[0, domain)` into itself is.
pub record IsPermutation (step : ℕ → ℕ) (domain : ℕ) : Type 0 where
  pub bounded : (v : ℕ) → v < domain → step v < domain
  pub injective : (v w : ℕ) → v < domain → w < domain → step v ≡ step w → v ≡ w

module _ (step : ℕ → ℕ) (n : ℕ) where
  -- The walk from `v` ends after `k + 1` steps at `w`, and not before.
  record Lands (v w : ℕ) : Type 0 where
    k : ℕ
    at : iter step (suc k) v ≡ w
    inside : w < n
    outside : (j : ℕ) → 0 < j → j ≤ k → n ≤ iter step j v

  Lands-suc : (v w : ℕ) → n ≤ step v → Lands (step v) w → Lands v w
  Lands-suc v w h l = record {
    k = suc l.k;
    at = ap step (sym (iter_front step l.k v)) ∙ l.at;
    inside = l.inside;
    outside = λ j pos below. earlier j pos below;
  }
    where
      earlier : (j : ℕ) → 0 < j → j ≤ suc l.k → n ≤ iter step j v
      earlier zero pos below = elim pos [ ]
      earlier (suc zero) pos below = h
      earlier (suc (suc j)) pos below =
          rw (← iter_front step (suc j) v) (l.outside (suc j) (omega arith) (omega arith))

  cycle_walk-Lands : (fuel v w : ℕ) → cycle_walk step n fuel v ≡ some w → Lands v w
  unfolding cycle_walk
  cycle_walk-Lands zero v w e = cc
  cycle_walk-Lands (suc fuel) v w e = elim (Bool-cases (ltb (step v) n)) [
    | inl stop ↦ record {
      k = 0;
      at = ground arith;
      inside = ground arith;
      outside = λ j pos below. absurd (omega arith);
    }
    | inr on ↦ Lands-suc v w (ground arith) (cycle_walk-Lands fuel (step v) w (ground arith))
  ]

  -- A walk whose fuel runs out has only met values past the end.
  cycle_walk-none :
      (fuel v : ℕ) → cycle_walk step n fuel v ≡ none → (j : ℕ) → j < fuel → n ≤ iter step (suc j) v
  unfolding cycle_walk
  cycle_walk-none zero v e j h = elim h [ ]
  cycle_walk-none (suc fuel) v e zero h = ground arith
  cycle_walk-none (suc fuel) v e (suc j) h =
      rw (← iter_front step (suc j) v)
        (cycle_walk-none fuel (step v) (ground arith) j (omega arith))

  module _ (domain : ℕ) (perm : IsPermutation step domain) (room : n ≤ domain) where
    iter-lt : (k v : ℕ) → v < domain → iter step k v < domain
    iter-lt zero v h = h
    iter-lt (suc k) v h = perm.bounded (iter step k v) (iter-lt k v h)

    -- Equal numbers of steps can be taken back on both sides.
    iter_cancel :
        (k d v w : ℕ)
        → v < domain
        → w < domain
        → iter step k v ≡ iter step (k + d) w
        → v ≡ iter step d w
    iter_cancel zero d v w hv hw e = let s : zero + d ≡ d = omega arith in rw s at e
    iter_cancel (suc k) d v w hv hw e =
        let s : suc k + d ≡ suc (k + d) = omega arith in
        iter_cancel k d v w hv hw (
          perm.injective (iter step k v) (iter step (k + d) w) (iter-lt k v hv)
            (iter-lt (k + d) w hw) (rw s at e))

    no_return :
        (v a b : ℕ)
        → v < n
        → ((j : ℕ) → j < domain → n ≤ iter step (suc j) v)
        → a < b
        → b < domain
        → iter step (suc a) v ≢ iter step (suc b) v
    no_return v a b h past ab hb e =
        let split : suc b ≡ suc a + suc (b - a - 1) = omega arith in
        let back =
          iter_cancel (suc a) (suc (b - a - 1)) v v (omega arith) (omega arith)
            (e ∙ ap (λ t. iter step t v) split) in
        omega (arith, back, past (b - a - 1) (omega arith))

    -- Enough fuel: the walk from a position ends.
    pub cycle_walk-total :
        (v : ℕ) → v < n → (w : ℕ) × (cycle_walk step n domain v ≡ some w) × (w < n)
    cycle_walk-total v h = elim (Option-cases (cycle_walk step n domain v)) [
      | inr (w, e) ↦ (w, e, (cycle_walk-Lands domain v w e).inside)
      | inl e ↦
          let past = cycle_walk-none domain v e in
          absurd (
            omega (
              arith,
              pigeonhole domain (domain - n) (λ j. iter step (suc j) v - n)
                  (λ j hj. omega (arith, past j hj, iter-lt (suc j) v (omega arith)))
                  (λ a b ab hb eq.
                    no_return v a b h past ab hb (omega (arith, past a (omega arith), past b hb))),
            ))
    ]

    Lands-ordered :
        (v v' w : ℕ) (l : Lands v w) (l' : Lands v' w) → l.k ≤ l'.k → v < n → v' < n → v ≡ v'
    Lands-ordered v v' w l l' le hv hv' = go (l'.k - l.k) refl
      where
        go : (d : ℕ) → l'.k - l.k ≡ d → v ≡ v'
        go d eq =
            let split : suc l'.k ≡ suc l.k + d = omega arith in
            let meet : v ≡ iter step d v' =
              iter_cancel (suc l.k) d v v' (omega arith) (omega arith)
                (l.at ∙ sym l'.at ∙ ap (λ t. iter step t v') split) in
            ground (arith, l'.outside d)

    pub cycle_walk-injective :
        (f g v v' w : ℕ)
        → v < n
        → v' < n
        → cycle_walk step n f v ≡ some w
        → cycle_walk step n g v' ≡ some w
        → v ≡ v'
    cycle_walk-injective f g v v' w hv hv' e e' = first (dec_le l.k l'.k)
      where
        l : Lands v w
        l = cycle_walk-Lands f v w e

        l' : Lands v' w
        l' = cycle_walk-Lands g v' w e'

        first : Dec (l.k ≤ l'.k) → v ≡ v'
        first (yes le) = Lands-ordered v v' w l l' le hv hv'
        first (no gt) = sym (Lands-ordered v' v w l' l (omega arith) hv' hv)
