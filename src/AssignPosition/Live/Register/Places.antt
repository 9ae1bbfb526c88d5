-- ===== src/AssignPosition/Live/Register/Places.antt =====
-- The rows of `PreQueue` with `resolve_prequeue` of crates/wr-common/src/items.rs.
use virtual_waiting_room.Prelude.{ℕ, ◌≡◌, ◌⊎◌, inl, inr, sym, ap, ◌∙◌, List, [], ◌∷◌}
use virtual_waiting_room.Prelude.Result.{ok}
use virtual_waiting_room.Items.Counters.{Counters, PreQueueItem}
use virtual_waiting_room.Items.Resolve.{at, resolve_prequeue}
use virtual_waiting_room.Items.Resolve.Laws.{IsOpened, resolve_prequeue-distinct}
use virtual_waiting_room.Tables.{Tables}
use virtual_waiting_room.AssignPosition.Live.Register.{IsFree, IsRegister}
use virtual_waiting_room.AssignPosition.Live.Register.Batch.{HasRegister}

abbrev pub In : PreQueueItem → List PreQueueItem → Type 0
In row [] = ⊥
In row (x ∷ rows) = (x ≡ row) ⊎ In row rows

IsFree-out :
    (s l : ℕ) (rows : List PreQueueItem) (row : PreQueueItem)
    → IsFree s l rows
    → In row rows
    → row.s ≡ s
    → row.l ≡ l
    → ⊥
IsFree-out s l [] row free h es el = elim h [ ]
IsFree-out s l (x ∷ rows) row (inl other, free) (inl e) es el = other (ap (λ y. y.s) e ∙ es)
IsFree-out s l (x ∷ rows) row (inr other, free) (inl e) es el = other (ap (λ y. y.l) e ∙ el)
IsFree-out s l (x ∷ rows) row (other, free) (inr there) es el =
    IsFree-out s l rows row free there es el

IsRegister-one :
    (counts : List ℕ) (rows : List PreQueueItem) (row row' : PreQueueItem)
    → IsRegister counts rows
    → In row rows
    → In row' rows
    → row.s ≡ row'.s
    → row.l ≡ row'.l
    → row ≡ row'
IsRegister-one counts [] row row' reg h h' es el = elim h [ ]
IsRegister-one counts (x ∷ rows) row row' reg (inl e) (inl e') es el = sym e ∙ e'
IsRegister-one counts (x ∷ rows) row row' reg (inl e) (inr there) es el = absurd (
    IsFree-out x.s x.l rows row' reg.1 there (sym es ∙ ap (λ y. y.s) (sym e))
      (sym el ∙ ap (λ y. y.l) (sym e)))
IsRegister-one counts (x ∷ rows) row row' reg (inr there) (inl e') es el = absurd (
    IsFree-out x.s x.l rows row reg.1 there (es ∙ ap (λ y. y.s) (sym e'))
      (el ∙ ap (λ y. y.l) (sym e')))
IsRegister-one counts (x ∷ rows) row row' reg (inr there) (inr there') es el =
    IsRegister-one counts rows row row' reg.3 there there' es el

-- In tables whose register is kept, and with the counters of an open over any ten shard counts, two
-- rows of `PreQueue` that resolve to one position are the same row: no two visitors who registered
-- are given one place, whenever each row was written.
pub registered-distinct :
    (hmac : List ℕ → List ℕ → List ℕ) (counts seed : List ℕ) (c : Counters) (t : Tables)
    (row row' : PreQueueItem) (p : ℕ)
    → HasRegister t
    → IsOpened counts seed c
    → In row t.prequeue
    → In row' t.prequeue
    → resolve_prequeue hmac c row ≡ ok (at p)
    → resolve_prequeue hmac c row' ≡ ok (at p)
    → row ≡ row'
registered-distinct hmac counts seed c t row row' p reg opened h h' e e' =
    let (below, es, el) = resolve_prequeue-distinct hmac counts seed c opened row row' p e e' in
    IsRegister-one t.shard_counts t.prequeue row row' reg h h' es el
