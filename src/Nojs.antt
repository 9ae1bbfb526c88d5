-- ===== src/Nojs.antt =====
-- crates/nojs/src/lib.rs: the flow for visitors without JavaScript. A visitor's identity is a
-- cookie; a page that they may return to is checked before they are sent there.
pub mod Cookie
pub mod Next
use Prim.Native.Char.{Char, code}
use Prim.Native.String.{String, ◌++◌}
use text.Mathlib.Text.{◌==◌ as str_eq}
use virtual_waiting_room.Prelude.{
  ℕ, ◌+◌, ◌-◌, ◌*◌, ◌&&◌, ◌||◌, Bool, true, false, not, Option, none, some, List, [], ◌∷◌, leb, ltb,
  ◌==◌, if◌then◌else◌,
}
use virtual_waiting_room.Prelude.Result.{Result, ok, err}
use virtual_waiting_room.Prelude.Text.{codes}
use virtual_waiting_room.Prelude.Chars.{Text, split_once}
use virtual_waiting_room.Ids.{is_uuid_shape}
use virtual_waiting_room.Possession.{PossessionSecret, MalformedPossession, parse_secret}
use virtual_waiting_room.Items.Attributes.{and_then}
use virtual_waiting_room.Rules.{hex_val, hex_pair}
use virtual_waiting_room.GenerateToken.Decide.{
  Denied, still_queued, not_registered, not_admitting, event_not_open, not_holder, corrupt,
}
use virtual_waiting_room.GenerateToken.Admit.{
  Admission, admitted_with, refused, event_not_found, sign_failed,
}

pub record Identity : Type 0 where
  pub request_id : String
  pub secret : PossessionSecret

-- `split_once('.')`: what the first character and the split of the rest make.
abbrev pub split_step : Bool → Char → String → Option (String × String) → Option (String × String)
split_step true c rest more = some (String.[], rest)
split_step false c rest none = none
split_step false c rest (some (before, after)) = some (String.◌∷◌ c before, after)

unfoldable pub split_dot : String → Option (String × String)
split_dot String.[] = none
split_dot (String.◌∷◌ c s) = split_step (code c == b'.') c s (split_dot s)

abbrev pub with_secret : String → Result PossessionSecret MalformedPossession → Option Identity
with_secret request_id (err e) = none
with_secret request_id (ok secret) = some (record { request_id = request_id; secret = secret })

abbrev pub parse_parts : Option (String × String) → Option Identity
parse_parts none = none
parse_parts (some (request_id, secret)) =
    if not (is_uuid_shape (codes request_id))
    then none
    else with_secret request_id (parse_secret secret)

unfoldable pub parse : String → Option Identity
unfolding split_dot
parse value = parse_parts (split_dot value)

unfoldable pub cookie_value : Identity → String
cookie_value i = i.request_id ++ String.◌∷◌ "." i.secret.text

pub data WaitPage : Type 0 where
  not_in_line joining holding lost unavailable : WaitPage
  queued : ℕ → ℕ → WaitPage

pub data WaitOutcome : Type 0 where
  admit : String → WaitOutcome
  show : WaitPage → WaitOutcome

unfoldable pub refresh_secs : WaitPage → Option ℕ
refresh_secs not_in_line = none
refresh_secs lost = none
refresh_secs joining = some 5
refresh_secs (queued position ahead) = some (if ltb ahead 100 then 5 else 20)
refresh_secs holding = some 30
refresh_secs unavailable = some 15

abbrev pub page_of : Denied → WaitPage
page_of (still_queued position serving) = queued position (position - serving)
page_of not_registered = joining
page_of not_admitting = holding
page_of event_not_open = holding
page_of not_holder = lost
page_of corrupt = unavailable

unfoldable pub outcome : Admission → WaitOutcome
outcome (admitted_with position expires_at credential) = admit credential
outcome (refused denied) = show (page_of denied)
outcome event_not_found = show unavailable
outcome sign_failed = show unavailable

-- `u8::from_str_radix(.., 16)` of two bytes: a leading `+` is a sign.
abbrev radix_16 : ℕ → ℕ → Option ℕ
radix_16 x y = if x == b'+' then hex_val y else hex_pair (hex_val x) (hex_val y)

abbrev push : Option ℕ → Option (List ℕ) → Option (List ℕ)
push none rest = none
push (some byte) none = none
push (some byte) (some rest) = some (byte ∷ rest)

-- The loop of `percent_decode`, from one index of the bytes on. Two bytes that are not both ASCII
-- are no number, wherever the characters' bounds lie.
unfoldable pub decode_bytes : List ℕ → Option (List ℕ)
decode_bytes [] = some []
decode_bytes (b ∷ []) =
    if b == b'%' then none else push (some (if b == b'+' then b' ' else b)) (some [])
decode_bytes (b ∷ x ∷ []) =
    let rest = decode_bytes (x ∷ []) in
    if b == b'%' then none else push (some (if b == b'+' then b' ' else b)) rest
decode_bytes (b ∷ x ∷ y ∷ bytes) =
    let skipped = decode_bytes bytes in
    let rest = decode_bytes (x ∷ y ∷ bytes) in
    if b == b'%'
    then push (radix_16 x y) skipped
    else push (some (if b == b'+' then b' ' else b)) rest

-- `char::is_control`.
unfoldable pub is_control : ℕ → Bool
is_control c = leb c 31 || leb 127 c && leb c 159

abbrev pub any : (ℕ → Bool) → Text → Bool
any p [] = false
any p (c ∷ cs) = p c || any p cs

abbrev pub root : Text
root = b'/' ∷ []

abbrev pub starts_at_root : Text → Bool
starts_at_root [] = false
starts_at_root (c ∷ cs) = c == b'/'

abbrev pub leaves_site : Text → Bool
leaves_site [] = false
leaves_site (c ∷ []) = false
leaves_site (c ∷ d ∷ cs) = d == b'/' || d == b'\\'

abbrev pub next_or_root : Option Text → Text
next_or_root none = root
next_or_root (some decoded) =
    if not (starts_at_root decoded) || leaves_site decoded || any is_control decoded
    then root
    else decoded

abbrev pub strip_next : Text → Option Text
strip_next (n ∷ e ∷ x ∷ t ∷ q ∷ rest) =
    if n == b'n' && e == b'e' && x == b'x' && t == b't' && q == b'=' then some rest else none
strip_next pair = none

unfoldable pub trim_question : Text → Text
trim_question [] = []
trim_question (c ∷ cs) = let rest = trim_question cs in if c == b'?' then rest else c ∷ cs

-- `split('&')`, the pieces in order: the first one, and the rest.
unfoldable pub split_amp : Text → Text × List Text
split_amp [] = ([], [])
split_amp (c ∷ cs) =
    let (first, more) = split_amp cs in if c == b'&' then ([], first ∷ more) else (c ∷ first, more)

unfoldable pub find_next : List Text → Option Text
find_next [] = none
find_next (pair ∷ pairs) = elim (strip_next pair) [
  | none ↦ find_next pairs
  | some value ↦ some value
]

unfoldable pub next_param : Text → Option Text
next_param query = let (first, more) = split_amp (trim_question query) in find_next (first ∷ more)

abbrev after_question : Option (Text × Text) → Option Text
after_question none = none
after_question (some (before, after)) = some after

-- `utf8` gives the bytes of a text, and `from_utf8` the text of bytes that are one.
module _ (utf8 : Text → List ℕ) (from_utf8 : List ℕ → Option Text) where
  unfoldable pub percent_decode : Text → Option Text
  percent_decode s = and_then (decode_bytes (utf8 s)) from_utf8

  unfoldable pub safe_next : Option Text → Text
  safe_next raw = next_or_root (and_then raw percent_decode)

  unfoldable pub next_from_referer : Option Text → Text
  next_from_referer referer =
      safe_next (
        and_then (and_then referer (λ r. after_question (split_once (λ c. c == b'?') r)))
          next_param)
