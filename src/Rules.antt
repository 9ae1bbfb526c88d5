-- ===== src/Rules.antt =====
-- crates/wr-common/src/rules.rs: which requests the gate covers. A text is the list of its code
-- points; decoding bytes as UTF-8 (`String::from_utf8_lossy`) is the library's, a parameter.
pub mod Path
pub mod Normal
pub mod Wire
use virtual_waiting_room.Prelude.{
  ℕ, zero, suc, ◌+◌, ◌-◌, ◌*◌, ◌&&◌, ◌||◌, Bool, true, false, not, Option, none, some, List, [],
  ◌∷◌, map, length, leb, ltb, ◌==◌, if◌then◌else◌,
}
use virtual_waiting_room.Prelude.Result.{Result, ok, err, ◌>>=◌}
use virtual_waiting_room.Prelude.Text.{all}
use virtual_waiting_room.Prelude.Chars.{
  Text, utf8_len, to_ascii_lower, eq_text, starts_with, contains_text,
}

-- A view over a request.
pub record RequestView : Type 0 where
  pub path : Text
  pub header : Text → Option Text
  pub cookie : Text → Option Text

pub data ProtectionRule : Type 0 where
  path_prefix cookie_named user_agent : Text → ProtectionRule
  header_is : Text → Text → ProtectionRule

unfoldable pub hex_val : ℕ → Option ℕ
hex_val b =
    if leb b'0' b && leb b b'9'
    then some (b - b'0')
    else if leb b'A' b && leb b b'F'
    then some (b - b'A' + 10)
    else if leb b'a' b && leb b b'f'
    then some (b - b'a' + 10)
    else none

-- What two bytes after a `%` stand for.
abbrev pub hex_pair : Option ℕ → Option ℕ → Option ℕ
hex_pair (some hi) (some lo) = some (hi * 16 + lo)
hex_pair (some hi) none = none
hex_pair none lo = none

-- What the loop pushes for a byte `b` with the two bytes behind it, and what for `b` alone.
abbrev pub push_escape : ℕ → Option ℕ → List ℕ → List ℕ → List ℕ
push_escape b none skipped rest = b ∷ rest
push_escape b (some byte) skipped rest = byte ∷ skipped

-- The loop, from one index of the bytes on.
unfoldable pub percent_decode : List ℕ → List ℕ
percent_decode [] = []
percent_decode (b ∷ []) = b ∷ []
percent_decode (b ∷ x ∷ []) = b ∷ percent_decode (x ∷ [])
percent_decode (b ∷ x ∷ y ∷ bytes) =
    let skipped = percent_decode bytes in
    let rest = percent_decode (x ∷ y ∷ bytes) in
    if b == b'%' then push_escape b (hex_pair (hex_val x) (hex_val y)) skipped rest else b ∷ rest

-- The loop of `collapse_slashes`: `slash` is whether the output ends with `/`.
unfoldable pub collapse_from : Bool → Text → Text
collapse_from slash [] = []
collapse_from slash (c ∷ cs) =
    let rest = collapse_from (c == b'/') cs in if c == b'/' && slash then rest else c ∷ rest

unfoldable pub collapse_slashes : Text → Text
collapse_slashes p = collapse_from false p

-- `replace("/./", "/")`: the matches do not overlap.
unfoldable pub drop_dots : Text → Text
drop_dots [] = []
drop_dots (a ∷ []) = a ∷ []
drop_dots (a ∷ b ∷ []) = a ∷ drop_dots (b ∷ [])
drop_dots (a ∷ b ∷ c ∷ cs) =
    let after = drop_dots cs in
    let rest = drop_dots (b ∷ c ∷ cs) in
    if a == b'/' && b == b'.' && c == b'/' then b'/' ∷ after else a ∷ rest

-- One round of the loop of `normalized_path`.
abbrev pub simplify : Text → Text
simplify p = drop_dots (collapse_slashes p)

-- The loop. The fuel is the length of the path, which every round but the last shortens.
unfoldable pub simplified : ℕ → Text → Text
simplified zero p = p
simplified (suc fuel) p =
    let next = simplify p in if eq_text next p then p else simplified fuel next

-- `strip_suffix("/.")`, with the `/` put back.
unfoldable pub close_dot : Text → Text
close_dot [] = []
close_dot (a ∷ []) = a ∷ []
close_dot (a ∷ b ∷ []) = if a == b'/' && b == b'.' then b'/' ∷ [] else a ∷ b ∷ []
close_dot (a ∷ b ∷ c ∷ cs) = a ∷ close_dot (b ∷ c ∷ cs)

abbrev pub lower : Text → Text
lower p = map to_ascii_lower p

abbrev pub is_some_and {ℓ} : {A : Type ℓ} → Option A → (A → Bool) → Bool
is_some_and none p = false
is_some_and (some a) p = p a

-- `utf8` gives the bytes of a text, and `from_utf8_lossy` a text of bytes.
module _ (utf8 : Text → List ℕ) (from_utf8_lossy : List ℕ → Text) where
  unfoldable pub normalized_path : Text → Text
  normalized_path path =
      let p = from_utf8_lossy (percent_decode (utf8 path)) in
      lower (close_dot (simplified (suc (length p)) p))

  unfoldable pub matches : ProtectionRule → RequestView → Bool
  matches (path_prefix prefix) req = starts_with (normalized_path req.path) (lower prefix)
  matches (header_is name value) req =
      is_some_and (req.header name) (λ actual. eq_text (lower actual) (lower value))
  matches (cookie_named name) req = is_some_and (req.cookie name) (λ value. true)
  matches (user_agent needle) req =
      is_some_and
        (req.header (b'u' ∷ b's' ∷ b'e' ∷ b'r' ∷ b'-' ∷ b'a' ∷ b'g' ∷ b'e' ∷ b'n' ∷ b't' ∷ []))
        (λ ua. contains_text ua needle)

  unfoldable pub matches_any : List ProtectionRule → RequestView → Bool
  matches_any [] req = false
  matches_any (r ∷ rules) req = matches r req || matches_any rules req

pub data RuleField : Type 0 where
  path_prefix_field cookie_name_field user_agent_field header_name_field header_value_field :
      RuleField

pub data RuleFieldError : Type 0 where
  too_long : ℕ → RuleField → ℕ → ℕ → RuleFieldError
  not_ascii : ℕ → RuleField → RuleFieldError

-- `MAX_PATH_PREFIX_BYTES` and its siblings.
abbrev pub max_bytes : RuleField → ℕ
max_bytes path_prefix_field = 128
max_bytes cookie_name_field = 64
max_bytes user_agent_field = 64
max_bytes header_name_field = 64
max_bytes header_value_field = 128

unfoldable pub is_printable : ℕ → Bool
is_printable b = leb 32 b && leb b 126

unfoldable pub check_field : ℕ → RuleField → Text → Result (Unit {0}) RuleFieldError
check_field rule_index field value =
    if not (all is_printable value)
    then err (not_ascii rule_index field)
    else if ltb (max_bytes field) (utf8_len value)
    then err (too_long rule_index field (max_bytes field) (utf8_len value))
    else ok tt

abbrev pub check_rule : ℕ → ProtectionRule → Result (Unit {0}) RuleFieldError
check_rule i (path_prefix p) = check_field i path_prefix_field p
check_rule i (cookie_named name) = check_field i cookie_name_field name
check_rule i (user_agent ua) = check_field i user_agent_field ua
check_rule i (header_is name value) = do
  _ ← check_field i header_name_field name
  check_field i header_value_field value

unfoldable pub validate_from : ℕ → List ProtectionRule → Result (Unit {0}) RuleFieldError
validate_from i [] = ok tt
validate_from i (rule ∷ rules) = do _ ← check_rule i rule; validate_from (i + 1) rules

unfoldable pub validate_rule_fields : List ProtectionRule → Result (Unit {0}) RuleFieldError
validate_rule_fields rules = validate_from 0 rules

pub data RuleWire : Type 0 where
  two : Text → Text → RuleWire
  three : Text → Text → Text → RuleWire

pub record UnknownRuleTag : Type 0 where
  pub tag : Text

abbrev of_two : Bool → Bool → Bool → Text → Text → Result ProtectionRule UnknownRuleTag
of_two p c u tag a =
    if p
    then ok (path_prefix a)
    else if c
    then ok (cookie_named a)
    else if u
    then ok (user_agent a)
    else err (record { tag = tag })

unfoldable pub try_from : RuleWire → Result ProtectionRule UnknownRuleTag
try_from (two tag a) =
    of_two (eq_text tag (b'p' ∷ [])) (eq_text tag (b'c' ∷ [])) (eq_text tag (b'u' ∷ [])) tag a
try_from (three tag name value) =
    if eq_text tag (b'h' ∷ []) then ok (header_is name value) else err (record { tag = tag })

unfoldable pub from_rule : ProtectionRule → RuleWire
from_rule (path_prefix prefix) = two (b'p' ∷ []) prefix
from_rule (cookie_named name) = two (b'c' ∷ []) name
from_rule (user_agent needle) = two (b'u' ∷ []) needle
from_rule (header_is name value) = three (b'h' ∷ []) name value
