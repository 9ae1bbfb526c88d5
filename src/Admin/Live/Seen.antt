-- ===== src/Admin/Live/Seen.antt =====
-- Worlds between which only others have acted, and calls that only read.
use mathlib.Core.List.{append_assoc}
use mathlib.Core.Path.{subst}
use virtual_waiting_room.Prelude.{
  ◌<◌, ◌≡◌, refl, sym, ap, ◌∙◌, ◌⊎◌, inl, inr, arith, List, [], ◌∷◌, ◌++◌,
}
use virtual_waiting_room.Prelude.Result.{Result, ok, err}
use virtual_waiting_room.Admin.{Action}
use virtual_waiting_room.Admin.Live.World.{
  Shared, Fault, fine, lost_request, lost_answer, Turn, World, access, access_at,
}
use virtual_waiting_room.Admin.Live.Triples.{Rivals}

-- No call takes effect and loses its answer.
abbrev pub Heard : Fault → Type 0
Heard fine = Unit
Heard lost_request = Unit
Heard lost_answer = ⊥

abbrev pub IsHeard : List Turn → Type 0
IsHeard [] = Unit
IsHeard (turn ∷ turns) = Heard turn.fault × IsHeard turns

-- Others leave the edge's document alone, or write another version of it.
abbrev pub Bumps : Shared → Shared → Type 0
Bumps s r = (r.kvs ≡ s.kvs) ⊎ (s.kvs.version < r.kvs.version)

-- The state after what others do in some turns, and nobody else.
abbrev pub from : List Turn → Shared → Shared
from [] s = s
from (turn ∷ turns) s = from turns (turn.rival s)

from-append : (xs ys : List Turn) (s : Shared) → from (xs ++ ys) s ≡ from ys (from xs s)
from-append [] ys s = refl
from-append (x ∷ xs) ys s = from-append xs ys (x.rival s)

from-Bumps :
    (turns rest : List Turn) (s : Shared) → Rivals Bumps (turns ++ rest) → Bumps s (from turns s)
from-Bumps [] rest s rs = inl refl
from-Bumps (turn ∷ turns) rest s rs =
    ground (arith, rs.0 s, from-Bumps turns rest (turn.rival s) rs.1)

IsHeard-rest : (turns rest : List Turn) → IsHeard (turns ++ rest) → IsHeard rest
IsHeard-rest [] rest h = h
IsHeard-rest (turn ∷ turns) rest h = IsHeard-rest turns rest h.1

Rivals-rest : (turns rest : List Turn) → Rivals Bumps (turns ++ rest) → Rivals Bumps rest
Rivals-rest [] rest rs = rs
Rivals-rest (turn ∷ turns) rest rs = Rivals-rest turns rest rs.1

-- Between two worlds only others have acted.
pub record Seen (w w' : World) : Type 0 where
  pub turns : List Turn
  pub split : w.turns ≡ turns ++ w'.turns
  pub state : w'.shared ≡ from turns w.shared

pub Seen-trans : {u v w : World} → Seen u v → Seen v w → Seen u w
Seen-trans a b = record {
  turns = a.turns ++ b.turns;
  split = a.split ∙ ap (λ rest. a.turns ++ rest) b.split ∙ sym (append_assoc a.turns b.turns _);
  state = b.state ∙ ap (from b.turns) a.state ∙ sym (from-append a.turns b.turns _);
}

module _ (w w' : World) (seen : Seen w w') where
  pub Seen-IsHeard : IsHeard w.turns → IsHeard w'.turns
  Seen-IsHeard h = IsHeard-rest seen.turns w'.turns (subst IsHeard (seen.split) h)

  pub Seen-Rivals : Rivals Bumps w.turns → Rivals Bumps w'.turns
  Seen-Rivals rs = Rivals-rest seen.turns w'.turns (subst (Rivals Bumps) (seen.split) rs)

  pub Seen-Bumps : Rivals Bumps w.turns → Bumps w.shared w'.shared
  Seen-Bumps rs =
      rw (seen.state)
        (from-Bumps seen.turns w'.turns w.shared (subst (Rivals Bumps) (seen.split) rs))

-- A call that reads.
module _ {A E : Type 0} (error : E) (op : Action Shared A E) (value : Shared → A)
    (reads : (s : Shared) → op s ≡ (ok (value s), s)) where
  abbrev pub Read : World → Result A E × World → Type 0
  Read w out = Seen w out.1 × ((out.0 ≡ err error) ⊎ (out.0 ≡ ok (value out.1.shared)))

  served-Read :
      (fault : Fault) (r : Shared → Shared) (s : Shared) (turns : List Turn)
      → let turn : Turn = record { rival = r; fault = fault } in
        Read (record { shared = s; turns = turn ∷ turns }) (access_at error op s (turn ∷ turns))
  served-Read fine r s turns =
      rw (reads (r s)) ((record { turns = _ ∷ []; split = refl; state = refl }), inr refl)
  served-Read lost_request r s turns =
      ((record { turns = _ ∷ []; split = refl; state = refl }), inl refl)
  served-Read lost_answer r s turns =
      rw (reads (r s)) ((record { turns = _ ∷ []; split = refl; state = refl }), inl refl)

  pub access-Read : (w : World) → Read w (access error op w)
  unfolding access
  access-Read w = at_read w.turns
    where
      at_read :
          (turns : List Turn)
          → Read (record { shared = w.shared; turns = turns }) (access_at error op w.shared turns)
      at_read [] =
          rw (reads w.shared) ((record { turns = []; split = refl; state = refl }), inr refl)
      at_read (turn ∷ turns) = served-Read turn.fault turn.rival w.shared turns
