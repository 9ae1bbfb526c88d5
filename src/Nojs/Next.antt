-- ===== src/Nojs/Next.antt =====
-- Where crates/nojs/src/lib.rs sends a visitor on, and what its waiting page says.
use virtual_waiting_room.Prelude.{ℕ, ◌≡◌, refl, true, false, Option, some, List}
use virtual_waiting_room.Prelude.Chars.{Text}
use virtual_waiting_room.Items.Attributes.{and_then}
use virtual_waiting_room.Nojs.{
  safe_next, next_or_root, starts_at_root, leaves_site, any, is_control, percent_decode,
}

-- A path of this site: it starts with `/`, not with `//` or `/\`, and holds no control character.
abbrev pub IsLocal : Text → Type 0
IsLocal next =
    (starts_at_root next ≡ true) × (leaves_site next ≡ false) × (any is_control next ≡ false)

local_kept : (decoded : Text) → IsLocal decoded → next_or_root (some decoded) ≡ decoded
local_kept decoded h = rw (h.0, h.1, h.2) refl

module _ (utf8 : Text → List ℕ) (from_utf8 : List ℕ → Option Text) (raw : Option Text) where
  -- A page asked for that is such a path is where the visitor is sent.
  pub safe_next_kept :
      (decoded : Text)
      → and_then raw (percent_decode utf8 from_utf8) ≡ some decoded
      → IsLocal decoded
      → safe_next utf8 from_utf8 raw ≡ decoded
  unfolding safe_next
  safe_next_kept decoded e h = rw e (local_kept decoded h)
