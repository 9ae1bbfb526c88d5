-- ===== src/Admin/Actions/Ruleset.antt =====
-- `apply_set_rules` of crates/admin/src/lib.rs. `encode` is `encode_gate_config`, and `digest` the
-- digest of the text that was written.
use Prim.Native.String.{String}
use virtual_waiting_room.Prelude.{ℕ, ◌-◌, List, ltb, if◌then◌else◌, length}
use virtual_waiting_room.Prelude.Result.{Result, ok, err}
use virtual_waiting_room.Prelude.Chars.{Text, utf8_len}
use virtual_waiting_room.Rules.{ProtectionRule}
use virtual_waiting_room.Admin.{
  ArrivalTime, GateConfig, GateConfigError, too_large, ActionError, invalid_rules, Store,
  EdgeConfigStore,
}
use virtual_waiting_room.Admin.Config.{max_config_bytes, encode_gate_config}
use virtual_waiting_room.Admin.Actions.{Handler, ◌>>=◌, check, load_event}
use virtual_waiting_room.Admin.Actions.Edge.{call_edge, edge_read_modify_write, logged}

abbrev pub rules_write_ceiling : ℕ
rules_write_ceiling = max_config_bytes - 20

abbrev pub with_reserve : Result Text GateConfigError → Result (Unit {0}) ActionError
with_reserve (err e) = err (invalid_rules e)
with_reserve (ok encoded) =
    if ltb rules_write_ceiling (utf8_len encoded)
    then err (invalid_rules (too_large (utf8_len encoded) rules_write_ceiling))
    else ok tt

module _ (to_json : GateConfig → Result Text String) where
  -- The check of the snapshot.
  unfoldable pub check_ruleset : List ProtectionRule → GateConfig → Result (Unit {0}) ActionError
  check_ruleset rules probe =
      with_reserve (encode_gate_config to_json (record probe { rules = rules }))

  abbrev digest_or_empty : (Text → String) → Result Text GateConfigError → String
  digest_or_empty digest (ok encoded) = digest encoded
  digest_or_empty digest (err e) = ""

  module _ (digest : Text → String) {S : Type 0} (s : Store S) (edge : EdgeConfigStore S) where
    unfoldable pub apply_set_rules :
        List ProtectionRule → String → ArrivalTime → Handler S (Unit {0})
    apply_set_rules rules actor now = do
      _ ← load_event s
      (probe, _) ← call_edge edge.read_config
      _ ← check (check_ruleset rules probe)
      cfg ← call_edge (edge_read_modify_write edge (λ cfg. record cfg { rules = rules }))
      logged (
          s.set_rules_audit (digest_or_empty digest (encode_gate_config to_json cfg))
            (length cfg.rules) actor now)
