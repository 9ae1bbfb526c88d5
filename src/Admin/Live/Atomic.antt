-- ===== src/Admin/Live/Atomic.antt =====
-- `edge_read_modify_write` of crates/admin/src/lib.rs over the live edge store, while others write.
use Prim.Native.String.{String}
use virtual_waiting_room.Prelude.{◌≡◌, refl, ◌⊎◌, inl, inr}
use virtual_waiting_room.Prelude.Result.{Result, ok, err}
use virtual_waiting_room.Prelude.Chars.{Text}
use virtual_waiting_room.Admin.{GateConfig, ETag, EdgeStoreError}
use virtual_waiting_room.Admin.Actions.{◌>>=◌, pure}
use virtual_waiting_room.Admin.Actions.Edge.{edge_read_modify_write, write_again, or_again}
use virtual_waiting_room.Admin.Live.World.{World}
use virtual_waiting_room.Admin.Live.Kvs.{read_config, write_config, kvs_store}
use virtual_waiting_room.Admin.Live.Triples.{Rivals}
use virtual_waiting_room.Admin.Live.Seen.{
  IsHeard, Bumps, Seen, Seen-trans, Seen-IsHeard, Seen-Rivals,
}
use virtual_waiting_room.Admin.Live.Attempt.{Applied, ReadConfig, read_config_lem, attempt}

module _ (to_json : GateConfig → Result Text String) (mutate : GateConfig → GateConfig) where
  module _ (w : World) where
    after_second :
        (cfg : GateConfig) (r : Result (Unit {0}) EdgeStoreError) (w3 : World)
        → (Seen w w3 × ((e : EdgeStoreError) × (r ≡ err e)))
          ⊎ ((r ≡ ok tt) × Applied to_json mutate w (ok cfg, w3))
        → Applied to_json mutate w (elim r [ ok done ↦ (ok cfg, w3) | err e ↦ (err e, w3) ])
    after_second cfg (ok done) w3 (inl p) = absurd (cc (p.1.1))
    after_second cfg (ok done) w3 (inr p) = p.1
    after_second cfg (err e) w3 (inl p) = inl (p.0, (e, refl))
    after_second cfg (err e) w3 (inr p) = absurd (cc (p.0))

    after_read :
        (r : Result (GateConfig × ETag) EdgeStoreError) (w1 : World)
        → Rivals Bumps w.turns
        → IsHeard w.turns
        → ReadConfig to_json w (r, w1)
        → Applied to_json mutate w (elim r [
          | ok p ↦ (write_config to_json p.1 (mutate p.0) >>= λ _. pure (mutate p.0)) w1
          | err e ↦ (err e, w1)
        ])
    after_read (err e) w1 rs h p = inl (p.0, (e, refl))
    after_read (ok (cfg, etag)) w1 rs h (seen, inl q) = absurd (cc (q.1))
    after_read (ok (cfg, etag)) w1 rs h (seen, inr q) =
        let same : cfg ≡ w1.shared.kvs.config = cc (q.1) in
        let tag : etag ≡ q.0 = cc (q.1) in
        rw (same, tag)
          (after_second (mutate w1.shared.kvs.config) _ _
            (attempt to_json mutate w w1 seen rs q.0 q.2 h))

    write_again_lem :
        Rivals Bumps w.turns
        → IsHeard w.turns
        → Applied to_json mutate w (write_again (kvs_store to_json) mutate w)
    write_again_lem rs h =
        after_read (read_config w).0 (read_config w).1 rs h (read_config_lem to_json w rs)

  module _ (w : World) (rs : Rivals Bumps w.turns) (h : IsHeard w.turns) where
    later_Applied :
        (w2 : World) (out : Result GateConfig EdgeStoreError × World)
        → Seen w w2
        → Applied to_json mutate w2 out
        → Applied to_json mutate w out
    later_Applied w2 out seen (inl (later, e)) = inl (Seen-trans seen later, e)
    later_Applied w2 out seen (inr p) = inr (p.0, Seen-trans seen p.1, p.2, p.3, p.4)

    after_first :
        (cfg : GateConfig) (r : Result (Unit {0}) EdgeStoreError) (w2 : World)
        → (Seen w w2 × ((e : EdgeStoreError) × (r ≡ err e)))
          ⊎ ((r ≡ ok tt) × Applied to_json mutate w (ok cfg, w2))
        → Applied to_json mutate w (or_again (kvs_store to_json) mutate cfg (r, w2))
    after_first cfg (ok done) w2 (inl p) = absurd (cc (p.1.1))
    after_first cfg (ok done) w2 (inr p) = p.1
    after_first cfg (err e) w2 (inl p) =
        later_Applied w2 _ p.0
          (write_again_lem w2 (Seen-Rivals w w2 p.0 rs) (Seen-IsHeard w w2 p.0 h))
    after_first cfg (err e) w2 (inr p) = absurd (cc (p.0))

    after_first_read :
        (r : Result (GateConfig × ETag) EdgeStoreError) (w1 : World)
        → ReadConfig to_json w (r, w1)
        → Applied to_json mutate w (elim r [
          | ok p ↦
              or_again
                (kvs_store to_json)
                mutate
                (mutate p.0)
                (write_config to_json p.1 (mutate p.0) w1)
          | err e ↦ (err e, w1)
        ])
    after_first_read (err e) w1 p = inl (p.0, (e, refl))
    after_first_read (ok (cfg, etag)) w1 (seen, inl q) = absurd (cc (q.1))
    after_first_read (ok (cfg, etag)) w1 (seen, inr q) =
        let same : cfg ≡ w1.shared.kvs.config = cc (q.1) in
        let tag : etag ≡ q.0 = cc (q.1) in
        rw (same, tag)
          (after_first (mutate w1.shared.kvs.config) _ _
            (attempt to_json mutate w w1 seen rs q.0 q.2 h))

    -- `edge_read_modify_write`, while others write the document between its calls and any of its
    -- calls fails before it takes effect, does one of two things. It succeeds with the change made
    -- to the document just as the others had left it, in one step, under a new version; or it fails
    -- with nothing done but what the others did.
    pub edge_read_modify_write_atomic :
        Applied to_json mutate w (edge_read_modify_write (kvs_store to_json) mutate w)
    unfolding edge_read_modify_write
    edge_read_modify_write_atomic =
        after_first_read (read_config w).0 (read_config w).1 (read_config_lem to_json w rs)
