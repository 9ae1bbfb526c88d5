-- ===== src/Rules/Wire.antt =====
-- The tuple form of a rule in crates/wr-common/src/rules.rs: each rule has one, and it is read back.
use virtual_waiting_room.Prelude.{◌≡◌, refl, ◌↔◌, [], ◌∷◌, arith}
use virtual_waiting_room.Prelude.Result.{ok}
use virtual_waiting_room.Prelude.Chars.{eq_text, eq_of_eq_text}
use virtual_waiting_room.Rules.{
  ProtectionRule, path_prefix, cookie_named, user_agent, header_is, RuleWire, two, three, try_from,
  from_rule,
}

read_back : (r : ProtectionRule) → try_from (from_rule r) ≡ ok r
unfolding try_from from_rule eq_text
read_back (path_prefix a) = refl
read_back (cookie_named a) = refl
read_back (user_agent a) = refl
read_back (header_is name value) = refl

written : (wire : RuleWire) (r : ProtectionRule) → try_from wire ≡ ok r → wire ≡ from_rule r
unfolding try_from from_rule
written (two tag a) r e = ground (
  arith,
  eq_of_eq_text tag (b'p' ∷ []),
  eq_of_eq_text tag (b'c' ∷ []),
  eq_of_eq_text tag (b'u' ∷ []),
)
written (three tag name value) r e = ground (arith, eq_of_eq_text tag (b'h' ∷ []))

-- A tuple is read as a rule exactly where it is the form that the rule is written in.
pub try_from-from_rule :
    (wire : RuleWire) (r : ProtectionRule) → (try_from wire ≡ ok r) ↔ (wire ≡ from_rule r)
try_from-from_rule wire r = (written wire r, λ e. rw e (read_back r))
