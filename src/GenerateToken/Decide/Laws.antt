-- ===== src/GenerateToken/Decide/Laws.antt =====
-- `decide` of crates/generate_token/src/lib.rs: who is admitted, and what a caller without the
-- secret is answered.
use Prim.Native.String.{String}
use virtual_waiting_room.Prelude.{
  ℕ, ◌<◌, ◌≡◌, ◌≢◌, ◌↔◌, refl, ap, ◌∙◌, Option, none, some, List, arith,
}
use virtual_waiting_room.Prelude.Result.{Result, ok, err, succeeded}
use virtual_waiting_room.Ids.{
  Phase, idle, pre_queue, active, post_event, maintenance, AdmissionControl, admitting, held,
  fail_open, resolve,
}
use virtual_waiting_room.Possession.{PossessionSecret, SecretDigest, is_digest_of_iff, digest}
use virtual_waiting_room.Items.Counters.{Counters, PreQueueItem}
use virtual_waiting_room.GenerateToken.Decide.{
  PositionRow, Denied, not_holder, Grant, stored_digest, open_gate, active_gate, holder,
  resolve_position, decide,
}

open_gate_inv : (c : AdmissionControl) {u : Unit {0}} → open_gate c ≡ ok u → c ≡ admitting
open_gate_inv admitting e = refl
open_gate_inv held e = cc
open_gate_inv fail_open e = cc

active_gate_inv : (p : Phase) {u : Unit {0}} → active_gate p ≡ ok u → p ≡ active
active_gate_inv active e = refl
active_gate_inv idle e = cc
active_gate_inv pre_queue e = cc
active_gate_inv post_event e = cc
active_gate_inv maintenance e = cc

module _ (hmac : List ℕ → List ℕ → List ℕ) (sha256_base64url : String → String) where
  holder_inv :
      (secret : PossessionSecret) (stored : Option SecretDigest) (d : SecretDigest)
      → holder sha256_base64url secret stored ≡ ok d
      → (stored ≡ some (digest sha256_base64url secret)) × (d ≡ digest sha256_base64url secret)
  holder_inv secret none d e = cc
  holder_inv secret (some x) d e = ground (arith, is_digest_of_iff sha256_base64url x secret)

  holder_self :
      (secret : PossessionSecret)
      → holder sha256_base64url secret (some (digest sha256_base64url secret))
        ≡ ok (digest sha256_base64url secret)
  holder_self secret =
      ground (arith, is_digest_of_iff sha256_base64url (digest sha256_base64url secret) secret)

  refused_digest :
      (secret : PossessionSecret) (d : SecretDigest)
      → d ≢ digest sha256_base64url secret
      → holder sha256_base64url secret (some d) ≡ err not_holder
  refused_digest secret d ne = ground (arith, is_digest_of_iff sha256_base64url d secret)

  -- What a grant of `position` to the holder of `secret` stands for.
  pub record IsDue (c : Counters) (pre : Option PreQueueItem) (row : Option PositionRow)
      (secret : PossessionSecret) (now : ℕ) (g : Grant) : Type 0 where
    pub holds : stored_digest pre row ≡ ok (some (digest sha256_base64url secret))
    pub granted : g.digest ≡ digest sha256_base64url secret
    pub is_active : c.phase ≡ active
    pub is_open : resolve c.stored_control c.fail_open_until now ≡ admitting
    pub has_position : resolve_position hmac c pre row ≡ ok g.position
    pub reached : g.position < c.serving_counter

  -- A visitor is admitted exactly when the digest on their row is that of the secret they present,
  -- the event is active, its control resolves to open at this moment, they have a position, and the
  -- cursor has passed it; the grant carries that position and that digest.
  pub decide_grant :
      (c : Counters) (pre : Option PreQueueItem) (row : Option PositionRow)
      (secret : PossessionSecret) (now : ℕ) (g : Grant)
      → (decide hmac sha256_base64url c pre row secret now ≡ ok g) ↔ IsDue c pre row secret now g
  unfolding decide
  decide_grant c pre row secret now g = (
    λ h.
        let (stored, e1, r1) = succeeded (stored_digest pre row) _ h in
        let (d, e2, r2) = succeeded (holder sha256_base64url secret stored) _ r1 in
        let (u, e3, r3) =
          succeeded (open_gate (resolve c.stored_control c.fail_open_until now)) _ r2 in
        let (v, e4, r4) = succeeded (active_gate c.phase) _ r3 in
        let (p, e5, r5) = succeeded (resolve_position hmac c pre row) _ r4 in
        let (same, mine) = holder_inv secret stored d e2 in
        record {
          holds = e1 ∙ ap ok same;
          granted = ground arith;
          is_active = active_gate_inv c.phase e4;
          is_open = open_gate_inv _ e3;
          has_position = ground arith;
          reached = ground arith;
        },
    λ due.
        rw (due.holds, holder_self secret, due.has_position, due.is_open, due.is_active)
          (let reached = due.reached in let granted = due.granted in ground arith),
  )

  -- A caller whose secret does not match the row learns nothing of the queue: the answer is the
  -- same for every state of the event and every time.
  pub decide_blind :
      (c c' : Counters) (pre : Option PreQueueItem) (row : Option PositionRow)
      (secret : PossessionSecret) (now now' : ℕ)
      → stored_digest pre row ≢ ok (some (digest sha256_base64url secret))
      → decide hmac sha256_base64url c pre row secret now
        ≡ decide hmac sha256_base64url c' pre row secret now'
  unfolding decide
  decide_blind c c' pre row secret now now' wrong = refused (stored_digest pre row) refl
    where
      refused :
          (stored : Result (Option SecretDigest) Denied)
          → stored_digest pre row ≡ stored
          → decide hmac sha256_base64url c pre row secret now
            ≡ decide hmac sha256_base64url c' pre row secret now'
      refused (err x) e = rw e
      refused (ok none) e = rw e
      refused (ok (some d)) e =
          rw (e, refused_digest secret d (λ q. wrong (e ∙ ap (λ t. ok (some t)) q)))
