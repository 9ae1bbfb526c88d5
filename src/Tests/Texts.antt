-- ===== src/Tests/Texts.antt =====
-- Runs of the rules' wire form, the identity cookie and the sessions.
use Prim.Native.String.{String}
use text.Mathlib.Text.{◌==◌ as str_eq}
use text.Mathlib.TextEquality.{eq_iff}
use virtual_waiting_room.Prelude.{
  arith, ◌==◌, ◌&&◌, ℕ, ◌≡◌, ◌↔◌, refl, Bool, true, false, Option, none, some, List, [], ◌∷◌, leb,
  if◌then◌else◌,
}
use virtual_waiting_room.Prelude.Result.{Result, ok, err}
use virtual_waiting_room.Prelude.Text.{codes}
use virtual_waiting_room.Prelude.Chars.{Text, contains_text, is_whitespace, trim_end}
use virtual_waiting_room.Admin.Form.{parse_rules, format_rules}
use virtual_waiting_room.Admin.Form.RoundTrip.{AllClean, parse_rules-format_rules}
use virtual_waiting_room.Rules.{ProtectionRule, path_prefix, header_is, normalized_path}
use virtual_waiting_room.Rules.Path.{double_slash, dot_segment}
use virtual_waiting_room.Rules.Normal.{ends_dot, normalized_path-IsSimple}
use virtual_waiting_room.Nojs.{Identity, parse, cookie_value}
use virtual_waiting_room.Nojs.Cookie.{IsWellFormed, parse-cookie_value}
use virtual_waiting_room.GenerateToken.Admit.{Session}
use virtual_waiting_room.Sessions.{
  Claims, SigningKey, ErrorKind, expired, sign, sign_claims, verify, verify-sign,
}

-- On ASCII the bytes of a text are its code points.
abbrev ascii : List ℕ → Text
ascii bytes = bytes

normalized_path-IsSimple_example :
    let p : Text = normalized_path ascii ascii (codes "/a/%2e//.//admin/.") in
    (contains_text p double_slash ≡ false)
    × (contains_text p dot_segment ≡ false)
    × (ends_dot p ≡ false)
normalized_path-IsSimple_example = normalized_path-IsSimple ascii ascii (codes "/a/%2e//.//admin/.")

abbrev visitor : Identity
visitor = record {
  request_id = "0198c0de-0000-7000-8000-00000000000a";
  secret = record { text = "AAAAAAAAAAAAAAAAAAAAAAAAAAAAAAAAAAAAAAAAAAA" };
}

parse-cookie_value_example :
    (parse "0198c0de.AAAA" ≡ some visitor)
    ↔ ((◌≡◌ {A = String} "0198c0de.AAAA" (cookie_value visitor)) × IsWellFormed visitor)
parse-cookie_value_example = parse-cookie_value "0198c0de.AAAA" visitor

abbrev one_claims : Claims
one_claims = record { aud = "event"; sub = "a"; exp = 200; iat = some 100; cip = none }

abbrev one_session : Session
one_session = record {
  event_id = "event";
  request_id = "a";
  issued_at = 100;
  expires_at = 200;
  ip_tag = none;
}

-- A package that signs this one session's claims and no other.
abbrev is_hundred : Option ℕ → Bool
is_hundred none = false
is_hundred (some n) = n == 100

abbrev is_absent : Option String → Bool
is_absent none = true
is_absent (some s) = false

abbrev encode : List ℕ → Claims → Option String
encode key c =
    if str_eq c.aud "event"
      && str_eq c.sub "a"
      && c.exp == 200
      && is_hundred c.iat
      && is_absent c.cip
    then some "token"
    else none

abbrev decode : List ℕ → String → Result Claims ErrorKind
decode key token = ok one_claims

decode-encode :
    (key : List ℕ) (c : Claims) (token : String)
    → encode key c ≡ some token
    → decode key token ≡ ok c
decode-encode key c token e = ground (arith, eq_iff c.aud "event", eq_iff c.sub "a")

abbrev key : SigningKey
key = record { session_key = 1 ∷ []; ip_key = 2 ∷ [] }

verify-sign_example :
    verify encode decode "token" key 150 ≡ (if leb 200 150 then err expired else ok one_session)
unfolding sign sign_claims
verify-sign_example = verify-sign encode decode decode-encode one_session key 150 "token" refl

abbrev form_rules : List ProtectionRule
form_rules = path_prefix (codes "/shop") ∷ header_is (codes "x-a") (codes "b c") ∷ []

form_rules-AllClean : AllClean form_rules
unfolding is_whitespace trim_end
form_rules-AllClean = ((refl, refl, refl), (((refl, refl, refl), refl, (refl, refl, refl)), tt))

parse_rules-format_rules_example : parse_rules (format_rules form_rules) ≡ ok form_rules
parse_rules-format_rules_example = parse_rules-format_rules form_rules form_rules-AllClean
