-- ===== src/Admin/Config.antt =====
-- The gate's configuration document of crates/admin/src/lib.rs. `serde_json::to_string` is the
-- library's, a parameter.
pub mod Reserve
use Prim.Native.String.{String}
use virtual_waiting_room.Prelude.{ℕ, ltb, if◌then◌else◌, length}
use virtual_waiting_room.Prelude.Result.{Result, ok, err}
use virtual_waiting_room.Prelude.Chars.{Text, utf8_len}
use virtual_waiting_room.Rules.{RuleFieldError, validate_rule_fields}
use virtual_waiting_room.Admin.{
  GateConfig, GateConfigError, too_many_rules, too_large, serialize, field,
}

abbrev pub max_rules : ℕ
max_rules = 35

abbrev pub max_config_bytes : ℕ
max_config_bytes = 950

-- The rest of `encode_gate_config`, with the outcome of the step before.
abbrev pub within_bytes : Result Text String → Result Text GateConfigError
within_bytes (err e) = err (serialize e)
within_bytes (ok json) =
    if ltb max_config_bytes (utf8_len json)
    then err (too_large (utf8_len json) max_config_bytes)
    else ok json

abbrev pub encode_valid :
    Result (Unit {0}) RuleFieldError → Result Text String → Result Text GateConfigError
encode_valid (err e) json = err (field e)
encode_valid (ok _) json = within_bytes json

unfoldable pub encode_gate_config :
    (GateConfig → Result Text String) → GateConfig → Result Text GateConfigError
encode_gate_config to_json cfg =
    if ltb max_rules (length cfg.rules)
    then err (too_many_rules (length cfg.rules) max_rules)
    else encode_valid (validate_rule_fields cfg.rules) (to_json cfg)
