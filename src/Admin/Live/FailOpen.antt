-- ===== src/Admin/Live/FailOpen.antt =====
-- `apply_fail_open` and `apply_recover` of crates/admin/src/lib.rs over the live ports: the order
-- of the two writes, under every failure.
use Prim.Native.String.{String}
use virtual_waiting_room.Prelude.{
  ℕ, [], ◌∷◌, ◌<◌, ◌*◌, ◌≤◌, ◌≡◌, refl, arith, Bool-cases, inl, inr, saturating_add,
}
use virtual_waiting_room.Prelude.Result.{Result, ok, err}
use virtual_waiting_room.Prelude.Chars.{Text}
use virtual_waiting_room.Items.Attributes.{parse_u32}
use virtual_waiting_room.Admin.{
  ArrivalTime, epoch_seconds, GateConfig, AdminAction, StoreError, conflict, backend, ApplyError,
}
use virtual_waiting_room.Admin.Actions.Edge.{
  edge_read_modify_write, apply_fail_open, apply_recover, parse_minutes,
}
use virtual_waiting_room.Admin.Config.{encode_gate_config}
use virtual_waiting_room.Admin.Live.World.{Turn, fine, lost_request, Shared, World, access}
use virtual_waiting_room.Admin.Live.Table.{
  dynamo_store, load, set_fail_open_until, update_fail_open, or_fallback, fallback, stamp_predicate,
  lost,
}
use virtual_waiting_room.Admin.Live.Kvs.{
  kvs_store, read_config, describe, get_key, write_config, put_key,
}
use virtual_waiting_room.Admin.Live.Triples.{
  Outcome, Rivals, Triple, access_rule, bind_rule, call_rule, call_edge_rule, pure_rule, weaken_bad,
}
use virtual_waiting_room.Admin.Live.Loading.{load_event_rule}
use virtual_waiting_room.Admin.Live.Windows.{
  store_until, edge_until, KeepsWindows, IsCovered, Before, After, edge_read_modify_write_rule,
}

module _ (audit_timestamp : ArrivalTime → String) (until : ℕ) (label : AdminAction) (actor : String)
    (now : ArrivalTime) (P Good : Shared → Type 0)
    (stable : (s r : Shared) → KeepsWindows s r → P s → P r)
    (good : (s r : Shared) → P s → store_until r ≡ until → edge_until r ≡ edge_until s → Good r)
    (weak : (s : Shared) → Good s → P s) where
  update_fail_open-windows :
      (s : Shared)
      → P s
      → Outcome
          (λ _. Good)
          P
          (update_fail_open audit_timestamp until label actor now s).0
          (update_fail_open audit_timestamp until label actor now s).1
        × P (update_fail_open audit_timestamp until label actor now s).1
  unfolding update_fail_open
  update_fail_open-windows s p = elim (Bool-cases (stamp_predicate s now)) [
    | inl e ↦ rw e (good s _ p refl refl, weak _ (good s _ p refl refl))
    | inr e ↦ rw e (p, p)
  ]

  or_fallback_rule :
      (r : Result (Unit {0}) StoreError) (w : World)
      → Rivals KeepsWindows w.turns
      → Outcome (λ _. Good) P r w.shared
      → let out : Result (Unit {0}) StoreError × World = or_fallback audit_timestamp until (r, w) in
        Outcome (λ _. Good) P out.0 out.1.shared × Rivals KeepsWindows out.1.turns
  or_fallback_rule (ok done) w rs q = (q, rs)
  or_fallback_rule (err (backend e)) w rs q = (q, rs)
  or_fallback_rule (err conflict) w rs q =
      (access_rule lost (fallback audit_timestamp until) stable (λ s p. good s _ p refl refl)
          (λ s p. (p, weak _ (good s _ p refl refl)))).run
        w rs q

  set_fail_open_until_rule :
      Triple KeepsWindows P
        (set_fail_open_until audit_timestamp until label actor now)
        (λ _. Good)
        P
  unfolding set_fail_open_until
  set_fail_open_until_rule = record {
    run = λ w rs p.
        let first =
          (access_rule {good = λ _. Good} lost
              (update_fail_open audit_timestamp until label actor now) stable
              (λ s p. (update_fail_open-windows s p).0)
              (λ s p. (p, (update_fail_open-windows s p).1))).run
            w rs p in
        or_fallback_rule _ _ first.1 first.0;
  }

abbrev pub IsOpenUntil : ℕ → Shared → Type 0
IsOpenUntil until s = (store_until s ≡ until) × (edge_until s ≡ until)

module _ (to_json : GateConfig → Result Text String) (audit_timestamp : ArrivalTime → String)
    (actor : String) (now : ArrivalTime) where
  recover_rule :
      Triple KeepsWindows IsCovered
        (apply_recover (dynamo_store audit_timestamp) (kvs_store to_json) actor now)
        (λ _. IsOpenUntil 0)
        IsCovered
  unfolding apply_recover
  recover_rule =
      bind_rule
        (load_event_rule KeepsWindows IsCovered (λ _. IsCovered) (λ s r k p. omega arith) (λ s p. p)
          audit_timestamp)
        (λ cs.
          bind_rule
            (call_rule (
              set_fail_open_until_rule audit_timestamp 0 _ actor now IsCovered (Before to_json 0)
                (λ s r k p. omega arith) (λ s r p a b. omega arith) (λ s p. p.1)))
            (λ _.
              bind_rule {mid = λ _. After to_json 0}
                (call_edge_rule
                  (weaken_bad (edge_read_modify_write_rule to_json 0 _ (λ cfg. refl)) (λ s p. p.1)))
                (λ cfg. pure_rule (λ s p. omega arith))))

  module _ (text : String) where
    -- The end of the window that the operator asks for.
    abbrev asked : ℕ → ℕ
    asked minutes = saturating_add (epoch_seconds now) (minutes * 60)

    fail_open_rule :
        (minutes : ℕ)
        → parse_minutes (parse_u32 text) ≡ ok minutes
        → Triple KeepsWindows
            (Before to_json (asked minutes))
            (apply_fail_open (dynamo_store audit_timestamp) (kvs_store to_json) text actor now)
            (λ _. IsOpenUntil (asked minutes))
            IsCovered
    unfolding apply_fail_open
    fail_open_rule minutes e = rw e (
        bind_rule
          (weaken_bad
            (load_event_rule KeepsWindows (Before to_json (asked minutes))
              (λ _. Before to_json (asked minutes)) (λ s r k p. omega arith) (λ s p. p)
              audit_timestamp)
            (λ s p. p.1))
          (λ cs.
            bind_rule {mid = λ _. After to_json (asked minutes)}
              (call_edge_rule (
                weaken_bad (edge_read_modify_write_rule to_json (asked minutes) _ (λ cfg. refl))
                  (λ s p. p.1)))
              (λ cfg.
                weaken_bad
                  (call_rule (
                    set_fail_open_until_rule audit_timestamp (asked minutes) _ actor now
                      (After to_json (asked minutes)) (IsOpenUntil (asked minutes))
                      (λ s r k p. omega arith) (λ s r p a b. omega arith) (λ s p. omega arith)))
                  (λ s p. omega arith))))

module _ (to_json : GateConfig → Result Text String) (audit_timestamp : ArrivalTime → String)
    (actor : String) (now : ArrivalTime) (w : World) (rivals : Rivals KeepsWindows w.turns) where
  -- `apply_recover` keeps the edge's window at least as long as the item's, whichever of its calls
  -- are lost and wherever it stops, while others leave both windows alone; where it succeeds, both
  -- are closed.
  pub apply_recover_windows :
      IsCovered w.shared
      → let out : Result (Unit {0}) ApplyError × World =
          apply_recover (dynamo_store audit_timestamp) (kvs_store to_json) actor now w in
        Outcome (λ _. IsOpenUntil 0) IsCovered out.0 out.1.shared
  apply_recover_windows h = ((recover_rule to_json audit_timestamp actor now).run w rivals h).0

  -- `apply_fail_open` with a window that ends no sooner than the item's present one keeps the edge's
  -- window at least as long as the item's, whichever of its calls are lost and wherever it stops,
  -- while others leave both windows alone; where it succeeds, both windows end at the time asked
  -- for.
  pub apply_fail_open_windows :
      (text : String) (minutes : ℕ)
      → parse_minutes (parse_u32 text) ≡ ok minutes
      → IsCovered w.shared
      → store_until w.shared ≤ saturating_add (epoch_seconds now) (minutes * 60)
      → let out : Result (Unit {0}) ApplyError × World =
          apply_fail_open (dynamo_store audit_timestamp) (kvs_store to_json) text actor now w in
        Outcome
          (λ _. IsOpenUntil (saturating_add (epoch_seconds now) (minutes * 60)))
          IsCovered
          out.0
          out.1.shared
  apply_fail_open_windows text minutes e h k =
      ((fail_open_rule to_json audit_timestamp actor now text minutes e).run w rivals (k, h)).0

abbrev calm : Turn
calm = record { rival = λ s. s; fault = fine }

abbrev losing : Turn
losing = record { rival = λ s. s; fault = lost_request }

-- Where the item's window ends after the time asked for, and the update of the item alone is lost,
-- `apply_fail_open` leaves the edge's window the shorter one.
pub apply_fail_open_shortened :
    (to_json : GateConfig → Result Text String) (audit_timestamp : ArrivalTime → String)
    (actor text : String) (now : ArrivalTime) (minutes : ℕ) (s : Shared) (json : Text)
    → parse_minutes (parse_u32 text) ≡ ok minutes
    → saturating_add (epoch_seconds now) (minutes * 60) < store_until s
    → encode_gate_config to_json (record (s.kvs.config) {
      fail_open_until = saturating_add (epoch_seconds now) (minutes * 60);
    })
      ≡ ok json
    → let w : World = record { shared = s; turns = calm ∷ calm ∷ calm ∷ calm ∷ losing ∷ [] } in
      ¬ IsCovered
        (apply_fail_open
          (dynamo_store audit_timestamp)
          (kvs_store to_json)
          text
          actor
          now
          w).1.shared
unfolding apply_fail_open edge_read_modify_write read_config describe get_key write_config put_key
    load set_fail_open_until access
apply_fail_open_shortened to_json audit_timestamp actor text now minutes s json parsed later encoded
      h =
    ground arith
