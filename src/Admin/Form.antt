-- ===== src/Admin/Form.antt =====
-- The operator's form of a ruleset in crates/admin/src/lib.rs, one rule to a line. Of an error the
-- line's number and the text that it quotes are kept.
pub mod RoundTrip
use virtual_waiting_room.Prelude.{
  ℕ, ◌+◌, ◌||◌, Bool, true, false, Option, none, some, List, [], ◌∷◌, ◌++◌, ◌==◌, if◌then◌else◌,
}
use virtual_waiting_room.Prelude.Result.{Result, ok, err, ◌>>=◌}
use virtual_waiting_room.Prelude.Chars.{Text, is_whitespace, trim, split_once, eq_text}
use virtual_waiting_room.Rules.{ProtectionRule, path_prefix, cookie_named, user_agent, header_is}

pub data LineError : Type 0 where
  no_value no_header_value unknown_tag : ℕ → Text → LineError

-- `str::lines`; a carriage return at the end of a line is trimmed with its other white space.
abbrev pub push_char : ℕ → List Text → List Text
push_char c [] = (c ∷ []) ∷ []
push_char c (line ∷ rest) = (c ∷ line) ∷ rest

unfoldable pub lines : Text → List Text
lines [] = []
lines (c ∷ cs) = let rest = lines cs in if c == b'\n' then [] ∷ rest else push_char c rest

abbrev pub is_skipped : Text → Bool
is_skipped [] = true
is_skipped (c ∷ cs) = c == b'#'

abbrev pub header_of : ℕ → Text → Option (Text × Text) → Result ProtectionRule LineError
header_of number rest none = err (no_header_value number rest)
header_of number rest (some (name, value)) = ok (header_is name (trim value))

abbrev pub rule_of : ℕ → Text → Text → Result ProtectionRule LineError
rule_of number tag rest =
    if eq_text tag (b'p' ∷ [])
    then ok (path_prefix rest)
    else if eq_text tag (b'c' ∷ [])
    then ok (cookie_named rest)
    else if eq_text tag (b'u' ∷ [])
    then ok (user_agent rest)
    else if eq_text tag (b'h' ∷ [])
    then header_of number rest (split_once is_whitespace rest)
    else err (unknown_tag number tag)

abbrev pub parse_parts : ℕ → Text → Option (Text × Text) → Result ProtectionRule LineError
parse_parts number line none = err (no_value number line)
parse_parts number line (some (tag, rest)) = rule_of number tag (trim rest)

-- One line, trimmed and not skipped.
unfoldable pub parse_line : ℕ → Text → Result ProtectionRule LineError
parse_line number line = parse_parts number line (split_once is_whitespace line)

abbrev pub with_line :
    ℕ → Text → Result (List ProtectionRule) LineError → Result (List ProtectionRule) LineError
with_line number line rest =
    if is_skipped line
    then rest
    else (do rule ← parse_line number line; rules ← rest; ok (rule ∷ rules))

-- The loop, from the line at index `i` on.
unfoldable pub parse_from : ℕ → List Text → Result (List ProtectionRule) LineError
parse_from i [] = ok []
parse_from i (line ∷ rest) = with_line (i + 1) (trim line) (parse_from (i + 1) rest)

unfoldable pub parse_rules : Text → Result (List ProtectionRule) LineError
parse_rules text = parse_from 0 (lines text)

-- A line without its end.
abbrev pub format_rule : ProtectionRule → Text
format_rule (path_prefix p) = b'p' ∷ b' ' ∷ p
format_rule (cookie_named name) = b'c' ∷ b' ' ∷ name
format_rule (user_agent ua) = b'u' ∷ b' ' ∷ ua
format_rule (header_is name value) = b'h' ∷ b' ' ∷ (name ++ b' ' ∷ value)

unfoldable pub format_rules : List ProtectionRule → Text
format_rules [] = []
format_rules (rule ∷ rules) = format_rule rule ++ b'\n' ∷ format_rules rules
