-- ===== src/GenerateToken/Address.antt =====
-- crates/generate_token/src/lib.rs: the address of a visitor, in the header that names it.
use virtual_waiting_room.Prelude.{
  ◌≡◌, refl, arith, ℕ, ◌&&◌, Bool, true, false, Option, none, some, [], ◌∷◌, ◌++◌, ◌==◌, not,
  if◌then◌else◌,
}
use virtual_waiting_room.Prelude.Text.{all, is_ascii_digit}
use virtual_waiting_room.Prelude.Chars.{Text, trim, split_more}

-- `rsplit_once(':')`.
abbrev or_here : ℕ → Text → Option (Text × Text) → Option (Text × Text)
or_here c cs none = if c == b':' then some ([], cs) else none
or_here c cs (some parts) = split_more c (some parts)

unfoldable rsplit_colon : Text → Option (Text × Text)
rsplit_colon [] = none
rsplit_colon (c ∷ cs) = or_here c cs (rsplit_colon cs)

abbrev is_empty : Text → Bool
is_empty [] = true
is_empty (c ∷ cs) = false

abbrev address : Option (Text × Text) → Option Text
address none = none
address (some (ip, port)) =
    if not (is_empty ip) && not (is_empty port) && all is_ascii_digit port then some ip else none

unfoldable viewer_ip : Text → Option Text
viewer_ip header = address (rsplit_colon (trim header))

rsplit_colon-digits : (port : Text) → all is_ascii_digit port ≡ true → rsplit_colon port ≡ none
unfolding rsplit_colon
rsplit_colon-digits [] h = refl
rsplit_colon-digits (c ∷ cs) h = ground (arith, rsplit_colon-digits cs)

rsplit_colon-append :
    (ip port : Text) → rsplit_colon port ≡ none → rsplit_colon (ip ++ b':' ∷ port) ≡ some (ip, port)
unfolding rsplit_colon
rsplit_colon-append [] port h = rw h refl
rsplit_colon-append (c ∷ cs) port h = rw (rsplit_colon-append cs port h) refl

-- The address of `ip:port` is all that stands before the last colon, whatever colons it has itself,
-- if it is not empty, the port is a number, and there is no white space around the two.
viewer_ip-append :
    (b : ℕ) (bs : Text) (d : ℕ) (ds : Text)
    → trim (b ∷ bs ++ b':' ∷ d ∷ ds) ≡ b ∷ bs ++ b':' ∷ d ∷ ds
    → all is_ascii_digit (d ∷ ds) ≡ true
    → viewer_ip (b ∷ bs ++ b':' ∷ d ∷ ds) ≡ some (b ∷ bs)
unfolding viewer_ip
viewer_ip-append b bs d ds trimmed digits =
    rw
      (trimmed, rsplit_colon-append (b ∷ bs) (d ∷ ds) (rsplit_colon-digits (d ∷ ds) digits), digits)
      refl
