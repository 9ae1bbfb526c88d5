-- ===== src/Admin/Config/Reserve.antt =====
-- The headroom that a ruleset leaves in the gate's document for a later fail-open.
use Prim.Native.String.{String}
use virtual_waiting_room.Prelude.{ℕ, ◌+◌, ◌≤◌, ◌≡◌, refl, false, List, ltb, length, u64_max, arith}
use virtual_waiting_room.Prelude.Result.{Result, ok, err}
use virtual_waiting_room.Prelude.Chars.{Text, utf8_len}
use virtual_waiting_room.Rules.{ProtectionRule, validate_rule_fields}
use virtual_waiting_room.Admin.{GateConfig, GateConfigError}
use virtual_waiting_room.Admin.Config.{encode_gate_config, max_rules}
use virtual_waiting_room.Admin.Actions.Ruleset.{check_ruleset, with_reserve}

-- `serde_json` writes `f`, a `u64`, in its 1 to 20 decimal digits, and writes the rest of the
-- document without regard to it.
abbrev pub WritesDecimal : (GateConfig → Result Text String) → Type 0
WritesDecimal to_json =
    (cfg : GateConfig) (until : ℕ) (json : Text)
    → until ≤ u64_max
    → to_json cfg ≡ ok json
    → (json' : Text) × (to_json (record cfg { fail_open_until = until }) ≡ ok json')
      × (utf8_len json' ≤ utf8_len json + 19)

module _ (to_json : GateConfig → Result Text String) where
  encode_parts :
      (cfg : GateConfig) (json : Text)
      → encode_gate_config to_json cfg ≡ ok json
      → (ltb max_rules (length cfg.rules) ≡ false)
        × (validate_rule_fields cfg.rules ≡ ok tt)
        × (to_json cfg ≡ ok json)
  unfolding encode_gate_config
  encode_parts cfg json e = ground arith

  encode_joined :
      (cfg : GateConfig) (json : Text)
      → ltb max_rules (length cfg.rules) ≡ false
      → validate_rule_fields cfg.rules ≡ ok tt
      → to_json cfg ≡ ok json
      → utf8_len json ≤ 950
      → encode_gate_config to_json cfg ≡ ok json
  unfolding encode_gate_config
  encode_joined cfg json few valid written short = rw (few, valid, written) (ground arith)

  check_parts :
      (r : Result Text GateConfigError)
      → with_reserve r ≡ ok tt
      → (json : Text) × (r ≡ ok json) × (utf8_len json ≤ 930)
  check_parts (ok json) e = (json, refl, ground arith)
  check_parts (err x) e = absurd (cc (e))

  -- A ruleset that `apply_set_rules` accepts leaves room for any fail-open window: with every later
  -- value of `f` that a `u64` can hold, the document is still one that can be written.
  pub check_ruleset-encode_gate_config :
      WritesDecimal to_json
      → (rules : List ProtectionRule) (probe : GateConfig) (until : ℕ)
      → check_ruleset to_json rules probe ≡ ok tt
      → until ≤ u64_max
      → (json : Text) × (encode_gate_config to_json
            (record probe { rules = rules; fail_open_until = until })
          ≡ ok json)
  unfolding check_ruleset
  check_ruleset-encode_gate_config decimal rules probe until accepted small =
      let (json, encoded, short) = check_parts _ accepted in
      let (few, valid, written) = encode_parts (record probe { rules = rules }) json encoded in
      let (json', written', longer) =
        decimal (record probe { rules = rules }) until json small written in
      (
        json',
        encode_joined (record probe { rules = rules; fail_open_until = until }) json' few valid
            written' (omega arith),
      )
