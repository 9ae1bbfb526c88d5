-- ===== src/Admin/Live/Attempt.antt =====
-- One attempt at a read-modify-write over the live edge store of crates/admin/src/edge.rs, while
-- others write.
use Prim.Native.String.{String}
use virtual_waiting_room.Prelude.{
  ◌+◌, ◌≤◌, ◌≡◌, refl, sym, ap, ◌∙◌, ◌⊎◌, inl, inr, arith, Bool-cases, ◌==◌, List, [], ◌∷◌,
}
use virtual_waiting_room.Prelude.Result.{Result, ok, err}
use virtual_waiting_room.Prelude.Chars.{Text}
use virtual_waiting_room.Admin.{GateConfig, ETag, EdgeStoreError, GateConfigError, Action}
use virtual_waiting_room.Admin.Config.{encode_gate_config}
use virtual_waiting_room.Admin.Actions.{◌>>=◌, pure}
use virtual_waiting_room.Admin.Live.World.{
  Kvs, Shared, Fault, fine, lost_request, lost_answer, Turn, World, access, access_at,
}
use virtual_waiting_room.Admin.Live.Kvs.{
  edge_error, describe, get_key, put_key, read_config, write_config, if_encoded,
}
use virtual_waiting_room.Admin.Live.Triples.{Rivals}
use virtual_waiting_room.Admin.Live.Seen.{
  Heard, IsHeard, Bumps, Seen, Seen-trans, Seen-IsHeard, Seen-Rivals, Seen-Bumps, access-Read,
}

module _ (to_json : GateConfig → Result Text String) where
  abbrev get_with : ETag → Action World (GateConfig × ETag) EdgeStoreError
  get_with etag = do cfg ← access (edge_error "get_key") get_key; pure (cfg, etag)

  -- What `read_config` returns is the document of some moment, under a version no newer.
  abbrev pub ReadConfig : World → Result (GateConfig × ETag) EdgeStoreError × World → Type 0
  ReadConfig w out =
      Seen w out.1
      × (((e : EdgeStoreError) × (out.0 ≡ err e))
          ⊎ ((etag : ETag) × (out.0 ≡ ok (out.1.shared.kvs.config, etag))
              × (etag.version ≤ out.1.shared.kvs.version)))

  module _ (w : World) (rs : Rivals Bumps w.turns) where
    after_get :
        (etag : ETag) (r : Result GateConfig EdgeStoreError) (w2 : World)
        → Seen w w2
        → etag.version ≤ w2.shared.kvs.version
        → (r ≡ err (edge_error "get_key")) ⊎ (r ≡ ok w2.shared.kvs.config)
        → ReadConfig w (elim r [ ok cfg ↦ (ok (cfg, etag), w2) | err e ↦ (err e, w2) ])
    after_get etag (ok cfg) w2 seen le e = (seen, inr (etag, ground arith, le))
    after_get etag (err x) w2 seen le e = (seen, inl (x, refl))

    after_describe :
        (r : Result ETag EdgeStoreError) (w1 : World)
        → Seen w w1
        → (r ≡ err (edge_error "describe_key_value_store"))
          ⊎ (r ≡ ok (record { version = w1.shared.kvs.version }))
        → ReadConfig w (elim r [ ok etag ↦ get_with etag w1 | err e ↦ (err e, w1) ])
    unfolding get_key
    after_describe (err x) w1 seen e = (seen, inl (x, refl))
    after_describe (ok etag) w1 seen e =
        let get = access-Read (edge_error "get_key") get_key (λ s. s.kvs.config) (λ s. refl) w1 in
        let bumps = Seen-Bumps _ _ get.0 (Seen-Rivals _ _ seen rs) in
        after_get etag _ _ (Seen-trans seen get.0) (ground (arith, bumps)) get.1

    pub read_config_lem : ReadConfig w (read_config w)
    unfolding read_config describe
    read_config_lem =
        let first =
          access-Read (edge_error "describe_key_value_store") describe
            (λ s. record { version = s.kvs.version }) (λ s. refl) w in
        after_describe _ _ first.0 first.1

  -- What a put did: nothing, or the document under the version that it was given.
  abbrev pub Written : ETag → GateConfig → World → Result (Unit {0}) EdgeStoreError × World → Type 0
  Written etag cfg w out =
      (Seen w out.1 × ((e : EdgeStoreError) × (out.0 ≡ err e)))
      ⊎ ((before : World) × Seen w before
          × (before.turns ≡ out.1.turns)
          × (out.0 ≡ ok tt)
          × (before.shared.kvs.version ≡ etag.version)
          × (out.1.shared ≡ record (before.shared) {
            kvs = record { config = cfg; version = before.shared.kvs.version + 1 };
          }))

  module _ (etag : ETag) (cfg : GateConfig) (w : World) where
    abbrev put_at : World → Result (Unit {0}) EdgeStoreError × World
    put_at before = (
      (put_key etag cfg before.shared).0,
      record { shared = (put_key etag cfg before.shared).1; turns = before.turns },
    )

    put_lem : (before : World) → Seen w before → Written etag cfg w (put_at before)
    unfolding put_key
    put_lem before seen = elim (Bool-cases (before.shared.kvs.version == etag.version)) [
      | inl e ↦ rw e (inr (before, seen, refl, refl, ground arith, refl))
      | inr e ↦ rw e (inl (seen, (_, refl)))
    ]

  module _ (etag : ETag) (cfg : GateConfig) where
    served_put :
        (fault : Fault) (r : Shared → Shared) (s : Shared) (turns : List Turn)
        → Heard fault
        → let turn : Turn = record { rival = r; fault = fault } in
          Written etag cfg
            (record { shared = s; turns = turn ∷ turns })
            (access_at (edge_error "put_key") (put_key etag cfg) s (turn ∷ turns))
    served_put fine r s turns h =
        put_lem etag cfg _ (record { shared = r s; turns = turns })
          (record { turns = _ ∷ []; split = refl; state = refl })
    served_put lost_answer r s turns h = elim h [ ]
    served_put lost_request r s turns h =
        inl (record { turns = _ ∷ []; split = refl; state = refl }, (_, refl))

    at_put :
        (s : Shared) (turns : List Turn)
        → IsHeard turns
        → Written etag cfg
            (record { shared = s; turns = turns })
            (access_at (edge_error "put_key") (put_key etag cfg) s turns)
    at_put s [] h =
        put_lem etag cfg _ (record { shared = s; turns = [] })
          (record { turns = []; split = refl; state = refl })
    at_put s (turn ∷ turns) h = served_put turn.fault turn.rival s turns h.0

    encoded_put :
        (r : Result Text GateConfigError) (w : World)
        → IsHeard w.turns
        → Written etag cfg w (if_encoded to_json r etag cfg w)
    unfolding access
    encoded_put (err e) w h = inl (record { turns = []; split = refl; state = refl }, (_, refl))
    encoded_put (ok text) w h = at_put w.shared w.turns h

    write_config_lem :
        (w : World) → IsHeard w.turns → Written etag cfg w (write_config to_json etag cfg w)
    unfolding write_config
    write_config_lem w h = encoded_put (encode_gate_config to_json cfg) w h

  -- A change was made to the document as others had left it, or nothing was done.
  module _ (mutate : GateConfig → GateConfig) where
    abbrev pub Applied : World → Result GateConfig EdgeStoreError × World → Type 0
    Applied w out =
        (Seen w out.1 × ((e : EdgeStoreError) × (out.0 ≡ err e)))
        ⊎ ((before : World) × Seen w before
            × (before.turns ≡ out.1.turns)
            × (out.0 ≡ ok (mutate before.shared.kvs.config))
            × (out.1.shared ≡ record (before.shared) {
              kvs = record {
                config = mutate before.shared.kvs.config;
                version = before.shared.kvs.version + 1;
              };
            }))

    module _ (w w1 : World) (seen : Seen w w1) (rs : Rivals Bumps w.turns) where
      -- A put that succeeds found the document that was read.
      written_fresh :
          (etag : ETag) (before : World)
          → Seen w1 before
          → etag.version ≤ w1.shared.kvs.version
          → before.shared.kvs.version ≡ etag.version
          → before.shared.kvs ≡ w1.shared.kvs
      written_fresh etag before later le e =
          let bumps = Seen-Bumps w1 before later (Seen-Rivals w w1 seen rs) in ground (arith, bumps)

      after_put :
          (etag : ETag) (out : Result (Unit {0}) EdgeStoreError × World)
          → etag.version ≤ w1.shared.kvs.version
          → Written etag (mutate w1.shared.kvs.config) w1 out
          → (Seen w out.1 × ((e : EdgeStoreError) × (out.0 ≡ err e)))
            ⊎ ((out.0 ≡ ok tt) × Applied w (ok (mutate w1.shared.kvs.config), out.1))
      after_put etag out le (inl (later, e)) = inl (Seen-trans seen later, e)
      after_put etag out le (inr (before, later, rest, done, e, state)) =
          let same = ap (λ (k : Kvs). k.config) (written_fresh etag before later le e) in
          let written =
            ap
              (λ (c : GateConfig).
                let kvs : Kvs = record {
                  config = mutate c;
                  version = before.shared.kvs.version + 1;
                } in
                let after : Shared = record (before.shared) { kvs = kvs } in after)
              (sym same) in
          inr (
            done,
            inr (
              before,
              Seen-trans seen later,
              rest,
              ap (λ (c : GateConfig). ok (mutate c)) (sym same),
              state ∙ written,
            ),
          )

      pub attempt :
          (etag : ETag)
          → etag.version ≤ w1.shared.kvs.version
          → IsHeard w.turns
          → let out : Result (Unit {0}) EdgeStoreError × World =
              write_config to_json etag (mutate w1.shared.kvs.config) w1 in
            (Seen w out.1 × ((e : EdgeStoreError) × (out.0 ≡ err e)))
            ⊎ ((out.0 ≡ ok tt) × Applied w (ok (mutate w1.shared.kvs.config), out.1))
      attempt etag le h =
          after_put etag _ le
            (write_config_lem etag (mutate w1.shared.kvs.config) w1 (Seen-IsHeard w w1 seen h))
