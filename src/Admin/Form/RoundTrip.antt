-- ===== src/Admin/Form/RoundTrip.antt =====
-- The form of crates/admin/src/lib.rs is read back as the ruleset that it was filled with.
use virtual_waiting_room.Prelude.{
  ℕ, ◌+◌, ◌≡◌, refl, ap, Bool, true, false, not, ◌==◌, some, List, [], ◌∷◌, ◌++◌, arith,
}
use virtual_waiting_room.Prelude.Result.{ok}
use virtual_waiting_room.Prelude.Text.{all}
use virtual_waiting_room.Prelude.Chars.{
  Text, is_whitespace, trim, trim_start, trim_end, trim_last, split_once, eq_text,
}
use virtual_waiting_room.Rules.{ProtectionRule, path_prefix, cookie_named, user_agent, header_is}
use virtual_waiting_room.Admin.Form.{
  lines, parse_line, with_line, parse_from, parse_rules, format_rule, format_rules,
}

abbrev no_newline : ℕ → Bool
no_newline c = not (c == b'\n')

abbrev no_space : ℕ → Bool
no_space c = not (is_whitespace c)

-- A text that one line can hold: not empty, with no white space at either end and no new line.
abbrev pub IsField : Text → Type 0
IsField [] = ⊥
IsField (c ∷ cs) =
    (is_whitespace c ≡ false) × (trim_end (c ∷ cs) ≡ c ∷ cs) × (all no_newline (c ∷ cs) ≡ true)

-- A rule whose texts are such, and whose header has no white space in its name.
abbrev pub IsClean : ProtectionRule → Type 0
IsClean (path_prefix p) = IsField p
IsClean (cookie_named name) = IsField name
IsClean (user_agent ua) = IsField ua
IsClean (header_is name value) = IsField name × (all no_space name ≡ true) × IsField value

abbrev pub AllClean : List ProtectionRule → Type 0
AllClean [] = Unit
AllClean (rule ∷ rules) = IsClean rule × AllClean rules

trim_end-append :
    (xs : Text) (d : ℕ) (ds : Text)
    → trim_end (d ∷ ds) ≡ d ∷ ds
    → trim_end (xs ++ d ∷ ds) ≡ xs ++ d ∷ ds
unfolding trim_end
trim_end-append [] d ds h = h
trim_end-append (c ∷ []) d ds h = ap (λ (t : Text). trim_last c t) h
trim_end-append (c ∷ b ∷ cs) d ds h =
    ap (λ (t : Text). trim_last c t) (trim_end-append (b ∷ cs) d ds h)

trim_field : (x : Text) → IsField x → trim x ≡ x
unfolding trim_start
trim_field [] h = absurd h
trim_field (c ∷ cs) h = rw (h.0) (h.1)

-- A tag and a space before a field keep it trimmed.
trim_tagged :
    (tag : ℕ) (x : Text)
    → is_whitespace tag ≡ false
    → IsField x
    → trim (tag ∷ b' ' ∷ x) ≡ tag ∷ b' ' ∷ x
unfolding trim_start
trim_tagged tag [] plain h = absurd h
trim_tagged tag (c ∷ cs) plain h = rw plain (trim_end-append (tag ∷ b' ' ∷ []) c cs h.1)

space : is_whitespace b' ' ≡ true
unfolding is_whitespace
space = refl

no_space_parts :
    (c : ℕ) (cs : Text)
    → all no_space (c ∷ cs) ≡ true
    → (is_whitespace c ≡ false) × (all no_space cs ≡ true)
no_space_parts c cs h = ground arith

split_once-append :
    (xs ys : Text)
    → all no_space xs ≡ true
    → split_once is_whitespace (xs ++ b' ' ∷ ys) ≡ some (xs, ys)
unfolding split_once
split_once-append [] ys h = rw space refl
split_once-append (c ∷ cs) ys h =
    let parts = no_space_parts c cs h in rw (parts.0, split_once-append cs ys parts.1) refl

lines-append :
    (xs rest : Text) → all no_newline xs ≡ true → lines (xs ++ b'\n' ∷ rest) ≡ xs ∷ lines rest
unfolding lines
lines-append [] rest h = refl
lines-append (c ∷ cs) rest h = ground (arith, lines-append cs rest)

plain_p : is_whitespace b'p' ≡ false
unfolding is_whitespace
plain_p = refl

plain_c : is_whitespace b'c' ≡ false
unfolding is_whitespace
plain_c = refl

plain_u : is_whitespace b'u' ≡ false
unfolding is_whitespace
plain_u = refl

plain_h : is_whitespace b'h' ≡ false
unfolding is_whitespace
plain_h = refl

-- A tag of one letter is split off a line.
split_tagged :
    (tag : ℕ) (x : Text)
    → is_whitespace tag ≡ false
    → split_once is_whitespace (tag ∷ b' ' ∷ x) ≡ some (tag ∷ [], x)
unfolding split_once
split_tagged tag x plain = rw (plain, space) refl

all-append :
    (xs ys : Text)
    → all no_newline xs ≡ true
    → all no_newline ys ≡ true
    → all no_newline (xs ++ ys) ≡ true
all-append [] ys h k = k
all-append (c ∷ cs) ys h k = ground (arith, all-append cs ys)

-- The two texts of a header, as one.
IsField-joined : (name value : Text) → IsField name → IsField value → IsField (name ++ b' ' ∷ value)
IsField-joined [] value h k = absurd h
IsField-joined (c ∷ cs) [] h k = absurd k
IsField-joined (c ∷ cs) (d ∷ ds) h k = (
  h.0,
  trim_end-append (c ∷ cs) b' ' (d ∷ ds) (trim_end-append (b' ' ∷ []) d ds k.1),
  all-append (c ∷ cs) (b' ' ∷ d ∷ ds) h.2 (ground arith),
)

IsField-no_newline : (x : Text) → IsField x → all no_newline x ≡ true
IsField-no_newline [] h = absurd h
IsField-no_newline (c ∷ cs) h = h.2

format_rule-trim :
    (rule : ProtectionRule) → IsClean rule → trim (format_rule rule) ≡ format_rule rule
format_rule-trim (path_prefix p) h = trim_tagged b'p' p plain_p h
format_rule-trim (cookie_named name) h = trim_tagged b'c' name plain_c h
format_rule-trim (user_agent ua) h = trim_tagged b'u' ua plain_u h
format_rule-trim (header_is name value) h =
    trim_tagged b'h' (name ++ b' ' ∷ value) plain_h (IsField-joined name value h.0 h.2)

parse_line-format_rule :
    (number : ℕ) (rule : ProtectionRule)
    → IsClean rule
    → parse_line number (format_rule rule) ≡ ok rule
unfolding parse_line eq_text
parse_line-format_rule number (path_prefix p) h =
    rw (split_tagged b'p' p plain_p, trim_field p h) refl
parse_line-format_rule number (cookie_named name) h =
    rw (split_tagged b'c' name plain_c, trim_field name h) refl
parse_line-format_rule number (user_agent ua) h =
    rw (split_tagged b'u' ua plain_u, trim_field ua h) refl
parse_line-format_rule number (header_is name value) h =
    rw
      (
        split_tagged b'h' (name ++ b' ' ∷ value) plain_h,
        trim_field (name ++ b' ' ∷ value) (IsField-joined name value h.0 h.2),
        split_once-append name value h.1,
        trim_field value h.2,
      )
      refl

format_rule-no_newline :
    (rule : ProtectionRule) → IsClean rule → all no_newline (format_rule rule) ≡ true
format_rule-no_newline (path_prefix p) h = IsField-no_newline p h
format_rule-no_newline (cookie_named name) h = IsField-no_newline name h
format_rule-no_newline (user_agent ua) h = IsField-no_newline ua h
format_rule-no_newline (header_is name value) h =
    IsField-no_newline (name ++ b' ' ∷ value) (IsField-joined name value h.0 h.2)

with_line_rule :
    (number : ℕ) (rule : ProtectionRule) (rules : List ProtectionRule)
    → IsClean rule
    → with_line number (format_rule rule) (ok rules) ≡ ok (rule ∷ rules)
with_line_rule number (path_prefix p) rules h =
    rw (parse_line-format_rule number (path_prefix p) h) refl
with_line_rule number (cookie_named name) rules h =
    rw (parse_line-format_rule number (cookie_named name) h) refl
with_line_rule number (user_agent ua) rules h =
    rw (parse_line-format_rule number (user_agent ua) h) refl
with_line_rule number (header_is name value) rules h =
    rw (parse_line-format_rule number (header_is name value) h) refl

lines_nil : lines [] ≡ []
unfolding lines
lines_nil = refl

parse_from-format_rules :
    (i : ℕ) (rules : List ProtectionRule)
    → AllClean rules
    → parse_from i (lines (format_rules rules)) ≡ ok rules
unfolding parse_from format_rules
parse_from-format_rules i [] h = rw lines_nil refl
parse_from-format_rules i (rule ∷ rules) h =
    rw
      (
        lines-append (format_rule rule) (format_rules rules) (format_rule-no_newline rule h.0),
        format_rule-trim rule h.0,
        parse_from-format_rules (i + 1) rules h.1,
      )
      (with_line_rule (i + 1) rule rules h.0)

-- The form that `format_rules` fills in is read back by `parse_rules` as the same ruleset, if each
-- text of a rule is not empty, has no white space at its ends and no new line, and a header's name
-- has no white space at all.
pub parse_rules-format_rules :
    (rules : List ProtectionRule) → AllClean rules → parse_rules (format_rules rules) ≡ ok rules
unfolding parse_rules
parse_rules-format_rules rules h = parse_from-format_rules 0 rules h
