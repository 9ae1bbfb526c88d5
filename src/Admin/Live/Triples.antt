-- ===== src/Admin/Live/Triples.antt =====
-- Rules for handlers over the live ports: what holds before a handler and after it, whatever fails,
-- where every change of others stands in a relation `R`.
use Prim.Native.String.{String}
use virtual_waiting_room.Prelude.{◌≡◌, refl, List, [], ◌∷◌}
use virtual_waiting_room.Prelude.Result.{Result, ok, err}
use virtual_waiting_room.Admin.{Action, StoreError, ActionError, EdgeStoreError, ScheduleError}
use virtual_waiting_room.Admin.Actions.{◌>>=◌, pure, call, of_store, check, of_check}
use virtual_waiting_room.Admin.Actions.Edge.{as_backend, call_edge}
use virtual_waiting_room.Admin.Actions.Schedule.{call_schedule}
use virtual_waiting_room.Admin.Live.World.{
  Shared, Fault, fine, lost_request, lost_answer, Turn, World, served, access, access_at,
}

abbrev pub Rivals : (Shared → Shared → Type 0) → List Turn → Type 0
Rivals R [] = Unit
Rivals R (turn ∷ turns) = ((s : Shared) → R s (turn.rival s)) × Rivals R turns

-- A condition on the state after a success, and one on the state after a failure.
abbrev pub Outcome :
    {A E : Type 0} → (A → Shared → Type 0) → (Shared → Type 0) → Result A E → Shared → Type 0
Outcome good bad (ok a) s = good a s
Outcome good bad (err e) s = bad s

pub record Triple (R : Shared → Shared → Type 0) {A E : Type 0} (P : Shared → Type 0)
    (m : Action World A E) (good : A → Shared → Type 0) (bad : Shared → Type 0) : Type 0 where
  pub run :
      (w : World)
      → Rivals R w.turns
      → P w.shared
      → Outcome good bad (m w).0 (m w).1.shared × Rivals R (m w).1.turns

module _ (R : Shared → Shared → Type 0) {A E : Type 0} (P : Shared → Type 0)
    (good : A → Shared → Type 0) (bad : Shared → Type 0) (error : E) (op : Action Shared A E)
    (stable : (s r : Shared) → R s r → P s → P r)
    (heard : (s : Shared) → P s → Outcome good bad (op s).0 (op s).1)
    (lost : (s : Shared) → P s → bad s × bad (op s).1) where
  served_rule :
      (fault : Fault) (s : Shared)
      → P s
      → Outcome good bad (served error fault s (op s)).0 (served error fault s (op s)).1
  served_rule fine s p = heard s p
  served_rule lost_request s p = (lost s p).0
  served_rule lost_answer s p = (lost s p).1

  access_at_rule :
      (s : Shared) (turns : List Turn)
      → Rivals R turns
      → P s
      → Outcome good bad (access_at error op s turns).0 (access_at error op s turns).1.shared
        × Rivals R (access_at error op s turns).1.turns
  access_at_rule s [] rs p = (heard s p, tt)
  access_at_rule s (turn ∷ turns) rs p =
      (served_rule turn.fault (turn.rival s) (stable s (turn.rival s) (rs.0 s) p), rs.1)

module _ {R : Shared → Shared → Type 0} {A E : Type 0} {P : Shared → Type 0}
    {good : A → Shared → Type 0} {bad : Shared → Type 0} where
  pub access_rule :
      (error : E) (op : Action Shared A E)
      → ((s r : Shared) → R s r → P s → P r)
      → ((s : Shared) → P s → Outcome good bad (op s).0 (op s).1)
      → ((s : Shared) → P s → bad s × bad (op s).1)
      → Triple R P (access error op) good bad
  unfolding access
  access_rule error op stable heard lost = record {
    run = λ w rs p. access_at_rule R P good bad error op stable heard lost w.shared w.turns rs p;
  }

  pub pure_rule : {a : A} → ((s : Shared) → P s → good a s) → Triple R P (pure {E = E} a) good bad
  pure_rule h = record { run = λ w rs p. (h w.shared p, rs) }

  pub weaken :
      {m : Action World A E} {Q : Shared → Type 0}
      → Triple R P m good bad
      → ((s : Shared) → Q s → P s)
      → Triple R Q m good bad
  weaken t h = record { run = λ w rs q. t.run w rs (h w.shared q) }

module _ {R : Shared → Shared → Type 0} {A E : Type 0} {P : Shared → Type 0} where
  -- A call that only reads.
  pub read_rule :
      (error : E) (op : Action Shared A E)
      → ((s : Shared) → (a : A) × (op s ≡ (ok a, s)))
      → ((s r : Shared) → R s r → P s → P r)
      → Triple R P (access error op) (λ _. P) P
  read_rule error op reads stable =
      access_rule error op stable (λ s p. rw (reads s).1 p) (λ s p. (p, rw (reads s).1 p))

module _ (R : Shared → Shared → Type 0) {A B E : Type 0} (mid : A → Shared → Type 0)
    (good : B → Shared → Type 0) (bad : Shared → Type 0) where
  chain :
      (f : A → Action World B E) (second : (a : A) → Triple R (mid a) (f a) good bad)
      (r : Result A E) (w : World)
      → Outcome mid bad r w.shared
      → Rivals R w.turns
      → let out : Result B E × World = elim r [ ok a ↦ f a w | err e ↦ (err e, w) ] in
        Outcome good bad out.0 out.1.shared × Rivals R out.1.turns
  chain f second (ok a) w q rs = (second a).run w rs q
  chain f second (err e) w q rs = (q, rs)

-- A chain: the second part starts from what the first part's success gives.
module _ {R : Shared → Shared → Type 0} {A B E : Type 0} {P : Shared → Type 0}
    {mid : A → Shared → Type 0} {good : B → Shared → Type 0} {bad : Shared → Type 0} where
  pub bind_rule :
      {m : Action World A E} {f : A → Action World B E}
      → Triple R P m mid bad
      → ((a : A) → Triple R (mid a) (f a) good bad)
      → Triple R P (m >>= f) good bad
  bind_rule {m} {f} first second = record {
    run = λ w rs p.
        chain R mid good bad f second (m w).0 (m w).1 (first.run w rs p).0 (first.run w rs p).1;
  }

module _ {A E : Type 0} (good : A → Shared → Type 0) (bad worse : Shared → Type 0)
    (h : (s : Shared) → bad s → worse s) where
  Outcome-worse : (r : Result A E) (s : Shared) → Outcome good bad r s → Outcome good worse r s
  Outcome-worse (ok a) s q = q
  Outcome-worse (err e) s q = h s q

module _ {A E : Type 0} (good less : A → Shared → Type 0) (bad : Shared → Type 0)
    (h : (a : A) (s : Shared) → good a s → less a s) where
  Outcome-less : (r : Result A E) (s : Shared) → Outcome good bad r s → Outcome less bad r s
  Outcome-less (ok a) s q = h a s q
  Outcome-less (err e) s q = q

-- A success may promise less.
module _ {R : Shared → Shared → Type 0} {A E : Type 0} {P : Shared → Type 0}
    {good less : A → Shared → Type 0} {bad : Shared → Type 0} {m : Action World A E} where
  pub weaken_good :
      Triple R P m good bad → ((a : A) (s : Shared) → good a s → less a s) → Triple R P m less bad
  weaken_good t h = record {
    run = λ w rs p.
        (Outcome-less good less bad h (m w).0 (m w).1.shared (t.run w rs p).0, (t.run w rs p).1);
  }

-- A failure may promise less.
module _ {R : Shared → Shared → Type 0} {A E : Type 0} {P : Shared → Type 0}
    {good : A → Shared → Type 0} {bad worse : Shared → Type 0} {m : Action World A E} where
  pub weaken_bad :
      Triple R P m good bad → ((s : Shared) → bad s → worse s) → Triple R P m good worse
  weaken_bad t h = record {
    run = λ w rs p.
        (Outcome-worse good bad worse h (m w).0 (m w).1.shared (t.run w rs p).0, (t.run w rs p).1);
  }

module _ {A : Type 0} (good : A → Shared → Type 0) (bad : Shared → Type 0) where
  Outcome-of_store :
      (r : Result A StoreError) (s : Shared)
      → Outcome good bad r s
      → Outcome good bad (of_store r) s
  Outcome-of_store (ok a) s q = q
  Outcome-of_store (err e) s q = q

  Outcome-as_backend :
      {X : Type 0} (text : X → String) (r : Result A X) (s : Shared)
      → Outcome good bad r s
      → Outcome good bad (as_backend text r) s
  Outcome-as_backend text (ok a) s q = q
  Outcome-as_backend text (err e) s q = q

  checked :
      (r : Result A ActionError) (s : Shared)
      → ((a : A) → r ≡ ok a → good a s)
      → bad s
      → Outcome good bad (of_check r) s
  checked (ok a) s g b = g a refl
  checked (err e) s g b = b

-- A port's error read as the handler's.
module _ {R : Shared → Shared → Type 0} {A : Type 0} {P : Shared → Type 0}
    {good : A → Shared → Type 0} {bad : Shared → Type 0} where
  pub call_rule :
      {m : Action World A StoreError} → Triple R P m good bad → Triple R P (call m) good bad
  call_rule {m} t = record {
    run = λ w rs p.
        (Outcome-of_store good bad (m w).0 (m w).1.shared (t.run w rs p).0, (t.run w rs p).1);
  }

  pub call_edge_rule :
      {m : Action World A EdgeStoreError}
      → Triple R P m good bad
      → Triple R P (call_edge m) good bad
  call_edge_rule {m} t = record {
    run = λ w rs p.
        (Outcome-as_backend good bad _ (m w).0 (m w).1.shared (t.run w rs p).0, (t.run w rs p).1);
  }

  pub call_schedule_rule :
      {m : Action World A ScheduleError}
      → Triple R P m good bad
      → Triple R P (call_schedule m) good bad
  call_schedule_rule {m} t = record {
    run = λ w rs p.
        (Outcome-as_backend good bad _ (m w).0 (m w).1.shared (t.run w rs p).0, (t.run w rs p).1);
  }

  pub check_rule :
      (r : Result A ActionError)
      → ((a : A) → r ≡ ok a → (s : Shared) → P s → good a s)
      → ((s : Shared) → P s → bad s)
      → Triple R P (check r) good bad
  check_rule r g b = record {
    run = λ w rs p. (checked good bad r w.shared (λ a e. g a e w.shared p) (b w.shared p), rs);
  }
