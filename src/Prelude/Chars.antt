-- ===== src/Prelude/Chars.antt =====
-- `str` methods on a text as the list of its code points.
use virtual_waiting_room.Prelude.{
  ◌≡◌, refl, arith, ℕ, ◌+◌, ◌&&◌, ◌||◌, Bool, true, false, Option, none, some, List, [], ◌∷◌, leb,
  ltb, ◌==◌, if◌then◌else◌,
}

abbrev pub Text : Type 0
Text = List ℕ

-- `char::is_whitespace`: the characters with the property White_Space.
unfoldable pub is_whitespace : ℕ → Bool
is_whitespace c =
    leb 9 c && leb c 13
    || c == 32
    || c == 133
    || c == 160
    || c == 5760
    || leb 8192 c && leb c 8202
    || c == 8232
    || c == 8233
    || c == 8239
    || c == 8287
    || c == 12288

unfoldable pub trim_start : Text → Text
trim_start [] = []
trim_start (c ∷ cs) = let rest = trim_start cs in if is_whitespace c then rest else c ∷ cs

abbrev pub trim_last : ℕ → Text → Text
trim_last c [] = if is_whitespace c then [] else c ∷ []
trim_last c (d ∷ ds) = c ∷ d ∷ ds

unfoldable pub trim_end : Text → Text
trim_end [] = []
trim_end (c ∷ cs) = trim_last c (trim_end cs)

abbrev pub trim : Text → Text
trim cs = trim_end (trim_start cs)

-- `split_once` on the first character that passes a test.
abbrev pub split_more : ℕ → Option (Text × Text) → Option (Text × Text)
split_more c none = none
split_more c (some (before, after)) = some (c ∷ before, after)

unfoldable pub split_once : (ℕ → Bool) → Text → Option (Text × Text)
split_once p [] = none
split_once p (c ∷ cs) =
    let rest = split_once p cs in if p c then some ([], cs) else split_more c rest

-- `str::len`, in bytes of UTF-8.
abbrev utf8_width : ℕ → ℕ
utf8_width c = if ltb c 128 then 1 else if ltb c 2048 then 2 else if ltb c 65536 then 3 else 4

unfoldable pub utf8_len : Text → ℕ
utf8_len [] = 0
utf8_len (c ∷ cs) = utf8_width c + utf8_len cs

unfoldable pub to_ascii_lower : ℕ → ℕ
to_ascii_lower c = if leb b'A' c && leb c b'Z' then c + 32 else c

unfoldable pub eq_text : Text → Text → Bool
eq_text [] [] = true
eq_text [] (d ∷ ds) = false
eq_text (c ∷ cs) [] = false
eq_text (c ∷ cs) (d ∷ ds) = c == d && eq_text cs ds

unfoldable pub starts_with : Text → Text → Bool
starts_with cs [] = true
starts_with [] (d ∷ ds) = false
starts_with (c ∷ cs) (d ∷ ds) = c == d && starts_with cs ds

-- `str::contains` of a text.
unfoldable pub contains_text : Text → Text → Bool
contains_text [] needle = starts_with [] needle
contains_text (c ∷ cs) needle = starts_with (c ∷ cs) needle || contains_text cs needle

pub eq_text_self : (cs : Text) → eq_text cs cs ≡ true
unfolding eq_text
eq_text_self [] = refl
eq_text_self (c ∷ cs) = ground (arith, eq_text_self cs)

pub eq_of_eq_text : (cs ds : Text) → eq_text cs ds ≡ true → cs ≡ ds
unfolding eq_text
eq_of_eq_text [] [] e = refl
eq_of_eq_text [] (d ∷ ds) e = cc
eq_of_eq_text (c ∷ cs) [] e = cc
eq_of_eq_text (c ∷ cs) (d ∷ ds) e = ground (arith, eq_of_eq_text cs ds)
