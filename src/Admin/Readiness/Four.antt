-- ===== src/Admin/Readiness/Four.antt =====
-- The four tables that one check of crates/admin/src/readiness.rs reads together, and a row that passes.
use virtual_waiting_room.Prelude.{ℕ, ◌≡◌, ◌↔◌, refl, Option, some, List, [], ◌∷◌, arith}
use virtual_waiting_room.Prelude.Result.{ok, err}
use virtual_waiting_room.Admin.Readiness.{
  pass, Table, counters, pre_queue, positions, tokens, WarmThroughput, CheckId,
}
use virtual_waiting_room.Admin.Readiness.Judge.{Verdict}
use virtual_waiting_room.Admin.Readiness.Pass.{Answers, row-pass}
use virtual_waiting_room.Admin.Readiness.Panel.{
  after, never, Probed, both, map_timed, Warm, applied_of, row,
}
use virtual_waiting_room.Admin.Readiness.Settled.{settled}

abbrev joined :
    Probed WarmThroughput
    → Probed WarmThroughput
    → Probed WarmThroughput
    → Probed WarmThroughput
    → Probed (List (Table × WarmThroughput))
joined c p s t = map_timed applied_of (
    map_timed (λ (q : Warm × (Warm × (Warm × Warm))). (q.0, q.1.0, q.1.1.0, q.1.1.1))
      (both c (both p (both s t))))

module _ (limit : ℕ) {A : Type 0} (check : CheckId) where
  pub row_passes :
      (judge : A → Verdict) (r : Probed A) (Good : A → Type 0)
      → ((a : A) → ((judge a).0 ≡ pass) ↔ Good a)
      → ((row check judge (settled limit r)).status ≡ pass) ↔ ((a : A) × Answers limit r a × Good a)
  row_passes judge r Good iff = (
    λ e. let (a, answered, p) = (row-pass check judge limit r).0 e in (a, answered, (iff a).0 p),
    λ h.
        let (a, answered, good) = h in
        (row-pass check judge limit r).1 (a, answered, (iff a).1 good),
  )

  pub some_row_passes :
      (judge : Option A → Verdict) (r : Probed (Option A)) (Good : A → Type 0)
      → ((o : Option A) → ((judge o).0 ≡ pass) ↔ ((a : A) × (o ≡ some a) × Good a))
      → ((row check judge (settled limit r)).status ≡ pass)
        ↔ ((a : A) × Answers limit r (some a) × Good a)
  some_row_passes judge r Good iff = (
    λ e.
        let (o, answered, p) = (row-pass check judge limit r).0 e in
        let (a, is_some, good) = (iff o).0 p in (a, rw is_some at answered, good),
    λ h.
        let (a, answered, good) = h in
        (row-pass check judge limit r).1 (some a, answered, (iff (some a)).1 (a, refl, good)),
  )

module _ (limit : ℕ) where
  -- The four tables, each of which answered in time.
  pub record Gathered (c p s t : Probed WarmThroughput) (applied : List (Table × WarmThroughput))
      : Type 0 where
    pub c' : WarmThroughput
    pub p' : WarmThroughput
    pub s' : WarmThroughput
    pub t' : WarmThroughput
    pub has_c : Answers limit c c'
    pub has_p : Answers limit p p'
    pub has_s : Answers limit s s'
    pub has_t : Answers limit t t'
    pub whole : applied ≡ (counters, c') ∷ (pre_queue, p') ∷ (positions, s') ∷ (tokens, t') ∷ []

  pub gather :
      (c p s t : Probed WarmThroughput) (applied : List (Table × WarmThroughput))
      → Answers limit (joined c p s t) applied
      → Gathered c p s t applied
  gather never p s t applied h = absurd h
  gather (after i c) never s t applied h = absurd h
  gather (after i c) (after j p) never t applied h = absurd h
  gather (after i c) (after j p) (after k s) never applied h = absurd h
  gather (after i (err e)) (after j p) (after k s) (after l t) applied h = absurd (cc (h.1))
  gather (after i (ok c)) (after j (err e)) (after k s) (after l t) applied h = absurd (cc (h.1))
  gather (after i (ok c)) (after j (ok p)) (after k (err e)) (after l t) applied h =
      absurd (cc (h.1))
  gather (after i (ok c)) (after j (ok p)) (after k (ok s)) (after l (err e)) applied h =
      absurd (cc (h.1))
  gather (after i (ok c)) (after j (ok p)) (after k (ok s)) (after l (ok t)) applied h = record {
    c' = c;
    p' = p;
    s' = s;
    t' = t;
    has_c = (omega (arith, h.0), refl);
    has_p = (omega (arith, h.0), refl);
    has_s = (omega (arith, h.0), refl);
    has_t = (omega (arith, h.0), refl);
    whole = cc (h.1);
  }

  pub scatter :
      (c p s t : Probed WarmThroughput) (c' p' s' t' : WarmThroughput)
      → Answers limit c c'
      → Answers limit p p'
      → Answers limit s s'
      → Answers limit t t'
      → Answers limit
          (joined c p s t)
          ((counters, c') ∷ (pre_queue, p') ∷ (positions, s') ∷ (tokens, t') ∷ [])
  scatter never p s t c' p' s' t' hc hp hs ht = absurd hc
  scatter (after i c) never s t c' p' s' t' hc hp hs ht = absurd hp
  scatter (after i c) (after j p) never t c' p' s' t' hc hp hs ht = absurd hs
  scatter (after i c) (after j p) (after k s) never c' p' s' t' hc hp hs ht = absurd ht
  scatter (after i c) (after j p) (after k s) (after l t) c' p' s' t' hc hp hs ht =
      (omega (arith, hc.0, hp.0, hs.0, ht.0), rw (hc.1, hp.1, hs.1, ht.1) refl)
