-- ===== src/Admin/Readiness/Parts.antt =====
-- The parts of the panel of crates/admin/src/readiness.rs that more than one value decides.
use virtual_waiting_room.Prelude.{ℕ, ◌≡◌, ◌↔◌, refl, true, Option, none, some, List, [], ◌∷◌}
use virtual_waiting_room.Prelude.Result.{Result, ok, err}
use virtual_waiting_room.Admin.Readiness.{
  pass, Table, counters, pre_queue, positions, tokens, WarmTargets, WarmThroughput, EdgeFacts,
  ProbeError, Row,
}
use virtual_waiting_room.Admin.Readiness.Judge.{evaluate_status_caching}
use virtual_waiting_room.Admin.Readiness.Ready.{IsWarm, AllWarm}
use virtual_waiting_room.Admin.Readiness.Pass.{
  IsCollapsing, judge_caching-pass, evaluate_gate_association-pass, Answers, settled-ok,
}
use virtual_waiting_room.Admin.Readiness.Panel.{Probed, read_warm, edge_rows}
use virtual_waiting_room.Admin.Readiness.Settled.{settled}
use virtual_waiting_room.Admin.Readiness.Four.{Gathered, gather, scatter}

abbrev pub AllPass : List Row → Type 0
AllPass [] = Unit {0}
AllPass (r ∷ panel) = (r.status ≡ pass) × AllPass panel

module _ (targets : WarmTargets) (warm : Table → Probed WarmThroughput) (limit : ℕ) where
  pub warm_of :
      (applied : List (Table × WarmThroughput))
      → Answers limit (read_warm warm) applied
      → AllWarm targets applied
      → (table : Table)
      → (w : WarmThroughput) × Answers limit (warm table) w × IsWarm targets table w
  unfolding read_warm
  warm_of applied h all = by_table
    where
      g : Gathered limit (warm counters) (warm pre_queue) (warm positions) (warm tokens) applied
      g = gather limit (warm counters) (warm pre_queue) (warm positions) (warm tokens) applied h

      each :
          AllWarm targets
            ((counters, g.c') ∷ (pre_queue, g.p') ∷ (positions, g.s') ∷ (tokens, g.t') ∷ [])
      each = rw (g.whole) at all

      by_table :
          (table : Table)
          → (w : WarmThroughput) × Answers limit (warm table) w × IsWarm targets table w
      by_table counters = (g.c', g.has_c, each.0)
      by_table pre_queue = (g.p', g.has_p, each.1.0)
      by_table positions = (g.s', g.has_s, each.1.1.0)
      by_table tokens = (g.t', g.has_t, each.1.1.1.0)

  pub all_warm :
      ((table : Table)
        → (w : WarmThroughput) × Answers limit (warm table) w × IsWarm targets table w)
      → (applied : List (Table × WarmThroughput)) × Answers limit (read_warm warm) applied
        × AllWarm targets applied
  unfolding read_warm
  all_warm each =
      let (c, hc, wc) = each counters in
      let (p, hp, wp) = each pre_queue in
      let (s, hs, ws) = each positions in
      let (t, ht, wt) = each tokens in
      (
        (counters, c) ∷ (pre_queue, p) ∷ (positions, s) ∷ (tokens, t) ∷ [],
        scatter limit (warm counters) (warm pre_queue) (warm positions) (warm tokens) c p s t hc hp
            hs ht,
        (wc, (wp, (ws, (wt, tt)))),
      )

pub edge_rows-pass :
    (limit : ℕ) (probed : Probed (Option EdgeFacts))
    → AllPass (edge_rows (settled limit probed)) ↔ (
        (facts : EdgeFacts) × Answers limit probed (some facts)
        × IsCollapsing facts.status_caching
        × (facts.gate_on_default ≡ true)
        × (facts.gate_elsewhere ≡ []))
unfolding evaluate_status_caching
edge_rows-pass limit probed = (
  λ all. passed (settled limit probed) refl all,
  λ h.
      let (facts, answered, caching, on, off) = h in
      rw ((settled-ok limit probed (some facts)).1 answered) (
        (judge_caching-pass facts.status_path facts.status_caching).1 caching,
        ((evaluate_gate_association-pass facts).1 (on, off), tt),
      ),
)
  where
    passed :
        (x : Result (Option EdgeFacts) ProbeError)
        → settled limit probed ≡ x
        → AllPass (edge_rows x)
        → (facts : EdgeFacts) × Answers limit probed (some facts)
          × IsCollapsing facts.status_caching
          × (facts.gate_on_default ≡ true)
          × (facts.gate_elsewhere ≡ [])
    passed (ok (some facts)) q all =
        let (on, off) = (evaluate_gate_association-pass facts).0 (all.1.0) in
        (
          facts,
          (settled-ok limit probed (some facts)).0 q,
          (judge_caching-pass facts.status_path facts.status_caching).0 (all.0),
          on,
          off,
        )
    passed (ok none) q all = absurd (cc (all.0))
    passed (err e) q all = absurd (cc (all.0))
