-- ===== src/Admin/Readiness/Pass.antt =====
-- The panel of crates/admin/src/readiness.rs passes throughout exactly when the deployment is ready.
use Prim.Native.String.{String}
use virtual_waiting_room.Prelude.{
  ℕ, ◌≤◌, ◌≡◌, ◌↔◌, inl, inr, refl, Bool, true, false, Option, none, some, [], length, min, leb,
  arith, Bool-cases,
}
use virtual_waiting_room.Prelude.Result.{Result, ok, err}
use virtual_waiting_room.Prelude.Int.{ℤ, pos, less}
use virtual_waiting_room.Prelude.Chars.{Text}
use virtual_waiting_room.Admin.{GateConfig}
use virtual_waiting_room.Admin.Readiness.{
  CheckId, pass, ApiGatewayThrottle, ScheduleFacts, no_cookies, CachingFacts, EdgeFacts, ProbeError,
  worst,
}
use virtual_waiting_room.Admin.Readiness.Judge.{
  Verdict, evaluate_api_gateway_throttle, judge_rate, at_epoch, judge_at, i64_max,
  evaluate_open_schedule, evaluate_controller_schedule, evaluate_gate_ruleset, judge_caching,
  evaluate_gate_association,
}
use virtual_waiting_room.Admin.Readiness.Panel.{after, never, Probed, row}
use virtual_waiting_room.Admin.Readiness.Settled.{settled}

module _ {F : Type 0} (lt : F → F → Bool) (to_string : F → String) (default : F) where
  abbrev pub IsAboveDefault : ApiGatewayThrottle F → Type 0
  IsAboveDefault throttle =
      (rate : F) × (throttle.rate_limit ≡ some rate)
      × (lt rate default ≡ false)
      × (lt default rate ≡ true)

  pub evaluate_api_gateway_throttle-pass :
      (throttle : ApiGatewayThrottle F)
      → ((evaluate_api_gateway_throttle lt to_string default throttle).0 ≡ pass)
        ↔ IsAboveDefault throttle
  unfolding evaluate_api_gateway_throttle
  evaluate_api_gateway_throttle-pass throttle = (
    λ e. passed throttle.rate_limit refl e,
    λ h. let (rate, q, low, high) = h in rw (q, low, high) refl,
  )
    where
      passed :
          (o : Option F)
          → throttle.rate_limit ≡ o
          → (judge_rate lt to_string default throttle.burst_limit o).0 ≡ pass
          → IsAboveDefault throttle
      passed none q e = cc
      passed (some rate) q e = elim (Bool-cases (lt rate default)) [
        | inl low ↦ absurd (cc (rw low at e))
        | inr not_low ↦ elim (Bool-cases (lt default rate)) [
          | inl high ↦ (rate, q, not_low, high)
          | inr not_high ↦ absurd (cc (rw (not_low, not_high) at e))
        ]
      ]

-- The schedule is on, and fires after `now`.
module _ (civil_epoch : Text → Text → Option ℤ) where
  abbrev pub WillOpen : ℕ → Option ScheduleFacts → Type 0
  WillOpen now o =
      (s : ScheduleFacts) × (at : ℤ) × (o ≡ some s)
      × (s.enabled ≡ true)
      × (at_epoch civil_epoch s.expression s.timezone ≡ some at)
      × (less (pos (min now i64_max)) at ≡ true)

  judge_at_passed :
      (s : ScheduleFacts) (now : ℕ) (o : Option ℤ)
      → (judge_at civil_epoch s now o).0 ≡ pass
      → (at : ℤ) × (o ≡ some at) × (less (pos (min now i64_max)) at ≡ true)
  judge_at_passed s now none e = cc
  judge_at_passed s now (some at) e = elim (Bool-cases (less (pos (min now i64_max)) at)) [
    | inl future ↦ (at, refl, future)
    | inr past ↦ absurd (cc (rw past at e))
  ]

  pub evaluate_open_schedule-pass :
      (o : Option ScheduleFacts) (now : ℕ)
      → ((evaluate_open_schedule civil_epoch o now).0 ≡ pass) ↔ WillOpen now o
  unfolding evaluate_open_schedule
  evaluate_open_schedule-pass none now = (λ e. cc, λ h. absurd (cc (h.2)))
  evaluate_open_schedule-pass (some s) now = (
    λ e. elim (Bool-cases s.enabled) [
      | inl on ↦
          let (at, epoch, future) = judge_at_passed s now _ (rw on at e) in
          (s, at, refl, on, epoch, future)
      | inr off ↦ absurd (cc (rw off at e))
    ],
    λ h.
        let (s', at, q, on, epoch, future) = h in
        let same : s ≡ s' = cc in rw (same, on, epoch, future) refl,
  )

pub evaluate_controller_schedule-pass :
    (o : Option ScheduleFacts)
    → ((evaluate_controller_schedule o).0 ≡ pass)
      ↔ ((s : ScheduleFacts) × (o ≡ some s) × (s.enabled ≡ true))
unfolding evaluate_controller_schedule
evaluate_controller_schedule-pass none = (λ e. cc, λ h. absurd (cc (h.1)))
evaluate_controller_schedule-pass (some s) =
    (λ e. (s, refl, ground arith), λ h. let (s', q, on) = h in ground arith)

pub evaluate_gate_ruleset-pass :
    (cfg : GateConfig) (now : ℕ)
    → ((evaluate_gate_ruleset cfg now).0 ≡ pass)
      ↔ ((1 ≤ length cfg.rules) × (cfg.fail_open_until ≤ now))
unfolding evaluate_gate_ruleset worst
evaluate_gate_ruleset-pass cfg now = (λ e. ground arith, λ h. ground arith)

abbrev pub IsCollapsing : Option CachingFacts → Type 0
IsCollapsing o =
    (c : CachingFacts) × (o ≡ some c) × (less (pos 0) c.min_ttl ≡ true) × (c.cookies ≡ no_cookies)

pub judge_caching-pass :
    (path : String) (o : Option CachingFacts) → ((judge_caching path o).0 ≡ pass) ↔ IsCollapsing o
judge_caching-pass path none = (λ e. cc, λ h. absurd (cc (h.1)))
judge_caching-pass path (some c) =
    (λ e. (c, refl, ground arith, ground arith), λ h. let (c', q, ttl, key) = h in ground arith)

pub evaluate_gate_association-pass :
    (facts : EdgeFacts)
    → ((evaluate_gate_association facts).0 ≡ pass)
      ↔ ((facts.gate_on_default ≡ true) × (facts.gate_elsewhere ≡ []))
unfolding evaluate_gate_association
evaluate_gate_association-pass facts = (λ e. ground arith, λ h. rw (h.0, h.1) refl)

-- A read that answered in time.
abbrev pub Answers : {A : Type 0} → ℕ → Probed A → A → Type 0
Answers limit never a = ⊥
Answers limit (after m r) a = (m ≤ limit) × (r ≡ ok a)

pub settled-ok :
    {A : Type 0} (limit : ℕ) (r : Probed A) (a : A) → (settled limit r ≡ ok a) ↔ Answers limit r a
settled-ok limit never a = (λ e. cc, λ h. absurd h)
settled-ok limit (after m r) a = elim (Bool-cases (leb m limit)) [
  | inl soon ↦ (λ e. (ground arith, rw soon at e), λ h. rw soon (h.1))
  | inr late ↦ (λ e. absurd (cc (rw late at e)), λ h. absurd (ground arith))
]

pub row-pass :
    {A : Type 0} (check : CheckId) (judge : A → Verdict) (limit : ℕ) (r : Probed A)
    → ((row check judge (settled limit r)).status ≡ pass)
      ↔ ((a : A) × Answers limit r a × ((judge a).0 ≡ pass))
row-pass {A} check judge limit r = (
  λ e. passed (settled limit r) refl e,
  λ h. let (a, answered, passes) = h in rw ((settled-ok limit r a).1 answered) passes,
)
  where
    passed :
        (x : Result A ProbeError)
        → settled limit r ≡ x
        → (row check judge x).status ≡ pass
        → (a : A) × Answers limit r a × ((judge a).0 ≡ pass)
    passed (ok a) q e = (a, (settled-ok limit r a).0 q, e)
    passed (err x) q e = cc
