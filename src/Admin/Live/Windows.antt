-- ===== src/Admin/Live/Windows.antt =====
-- The fail-open window is kept twice: on the event's item, where it stops the admission of
-- visitors, and at the edge, where it lets them through.
use Prim.Native.String.{String}
use virtual_waiting_room.Prelude.{ℕ, ◌≤◌, ◌≡◌, arith, ◌==◌, Bool-cases, inl, inr}
use virtual_waiting_room.Prelude.Result.{Result, ok, err}
use virtual_waiting_room.Prelude.Chars.{Text}
use virtual_waiting_room.Admin.{GateConfig, ETag, EdgeStoreError, GateConfigError}
use virtual_waiting_room.Admin.Config.{encode_gate_config}
use virtual_waiting_room.Admin.Actions.Edge.{edge_read_modify_write, write_again, or_again}
use virtual_waiting_room.Admin.Live.World.{Shared, World}
use virtual_waiting_room.Admin.Live.Kvs.{write_config, kvs_store, put_key, if_encoded}
use virtual_waiting_room.Admin.Live.Loading.{read_config_rule}
use virtual_waiting_room.Admin.Live.Triples.{
  Triple, Outcome, Rivals, access_rule, bind_rule, pure_rule,
}

abbrev pub store_until : Shared → ℕ
store_until s = s.row.fail_open_until

abbrev pub edge_until : Shared → ℕ
edge_until s = s.kvs.config.fail_open_until

-- Others leave both windows alone.
abbrev pub KeepsWindows : Shared → Shared → Type 0
KeepsWindows s r = (store_until r ≡ store_until s) × (edge_until r ≡ edge_until s)

-- While the item's window holds, the edge's does.
abbrev pub IsCovered : Shared → Type 0
IsCovered s = store_until s ≤ edge_until s

module _ (to_json : GateConfig → Result Text String) (until : ℕ) where
  abbrev pub Before : Shared → Type 0
  Before s = (store_until s ≤ until) × IsCovered s

  abbrev pub After : Shared → Type 0
  After s = (store_until s ≤ until) × (edge_until s ≡ until)

  Before-stable : (s r : Shared) → KeepsWindows s r → Before s → Before r
  Before-stable s r k p = omega arith

  module _ (etag : ETag) (cfg : GateConfig) (ends : cfg.fail_open_until ≡ until) where
    put_key-windows :
        (s : Shared)
        → Before s
        → Outcome (λ _. After) Before (put_key etag cfg s).0 (put_key etag cfg s).1
          × Before (put_key etag cfg s).1
    unfolding put_key
    put_key-windows s p = elim (Bool-cases (s.kvs.version == etag.version)) [
      | inl e ↦ rw e ((p.0, ends), (p.0, omega arith))
      | inr e ↦ rw e (p, p)
    ]

    if_encoded_rule :
        (r : Result Text GateConfigError)
        → Triple KeepsWindows Before (if_encoded to_json r etag cfg) (λ _. After) Before
    if_encoded_rule (err e) = record { run = λ w rs p. (p, rs) }
    if_encoded_rule (ok text) =
        access_rule _ _ Before-stable (λ s p. (put_key-windows s p).0)
          (λ s p. (p, (put_key-windows s p).1))

    write_config_rule :
        Triple KeepsWindows Before (write_config to_json etag cfg) (λ _. After) Before
    unfolding write_config
    write_config_rule = if_encoded_rule (encode_gate_config to_json cfg)

  module _ (mutate : GateConfig → GateConfig)
      (ends : (cfg : GateConfig) → (mutate cfg).fail_open_until ≡ until) where
    write_again_rule :
        Triple KeepsWindows Before (write_again (kvs_store to_json) mutate) (λ _. After) Before
    write_again_rule =
        bind_rule (read_config_rule Before-stable) (λ r.
          bind_rule (write_config_rule r.1 (mutate r.0) (ends r.0)) (λ _. pure_rule (λ s p. p)))

    or_again_rule :
        (cfg : GateConfig) (r : Result (Unit {0}) EdgeStoreError) (w : World)
        → Rivals KeepsWindows w.turns
        → Outcome (λ _. After) Before r w.shared
        → let out : Result GateConfig EdgeStoreError × World =
            or_again (kvs_store to_json) mutate cfg (r, w) in
          Outcome (λ _. After) Before out.0 out.1.shared × Rivals KeepsWindows out.1.turns
    or_again_rule cfg (ok done) w rs p = (p, rs)
    or_again_rule cfg (err e) w rs p = write_again_rule.run w rs p

    -- The edge's window, set or set again; a failure leaves the edge's no shorter than the item's.
    pub edge_read_modify_write_rule :
        Triple KeepsWindows Before
          (edge_read_modify_write (kvs_store to_json) mutate)
          (λ _. After)
          Before
    unfolding edge_read_modify_write
    edge_read_modify_write_rule = bind_rule (read_config_rule Before-stable) (λ r. record {
      run = λ w rs p.
          let first = (write_config_rule r.1 (mutate r.0) (ends r.0)).run w rs p in
          or_again_rule (mutate r.0) _ _ first.1 first.0;
    })
