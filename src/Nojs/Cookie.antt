-- ===== src/Nojs/Cookie.antt =====
-- The identity cookie of crates/nojs/src/lib.rs, written and read back.
use Prim.Native.Char.{Char, code}
use Prim.Native.String.{String, ◌++◌}
use text.Mathlib.TextEquality.{Char-path}
use text.Mathlib.TextLemmas.{nil-append, cons-append}
use virtual_waiting_room.Prelude.{
  ℕ, ◌+◌, ◌≡◌, ◌↔◌, refl, ap, ◌==◌, not, Bool, true, false, Bool-cases, inl, inr, Option, some,
  none, List, [], ◌∷◌, arith,
}
use virtual_waiting_room.Prelude.Text.{codes, all}
use virtual_waiting_room.Ids.{is_uuid_shape, uuid_loop}
use virtual_waiting_room.Possession.{is_b64url_32, parse_secret}
use virtual_waiting_room.Nojs.{Identity, split_step, split_dot, parse_parts, parse, cookie_value}

abbrev no_dot : ℕ → Bool
no_dot c = not (c == b'.')

uuid_loop-no_dot : (i : ℕ) (bytes : List ℕ) → uuid_loop i bytes ≡ true → all no_dot bytes ≡ true
unfolding uuid_loop
uuid_loop-no_dot i [] e = refl
uuid_loop-no_dot i (b ∷ bytes) e = ground (arith, uuid_loop-no_dot (i + 1) bytes)

is_uuid_shape-no_dot : (bytes : List ℕ) → is_uuid_shape bytes ≡ true → all no_dot bytes ≡ true
unfolding is_uuid_shape
is_uuid_shape-no_dot bytes e = ground (arith, uuid_loop-no_dot 0 bytes)

split_dot-append :
    (s t : String) → all no_dot (codes s) ≡ true → split_dot (s ++ String.◌∷◌ "." t) ≡ some (s, t)
unfolding split_dot
split_dot-append String.[] t e = rw (nil-append (String.◌∷◌ "." t)) refl
split_dot-append (String.◌∷◌ c s) t e =
    let here : (code c == b'.') ≡ false = ground arith in
    let later = split_dot-append s t (ground arith) in
    rw (cons-append c s (String.◌∷◌ "." t), split_dot, here, later) refl

module _ (c : Char) (s : String) where
  abbrev Joined : String → Option (String × String) → Type 0
  Joined v parts = (a b : String) → parts ≡ some (a, b) → v ≡ a ++ String.◌∷◌ "." b

  split_step_parts :
      (here : Bool) (more : Option (String × String))
      → (code c == b'.') ≡ here
      → Joined s more
      → Joined (String.◌∷◌ c s) (split_step here c s more)
  split_step_parts true more e rest a b found =
      let dot : c ≡ "." = Char-path c "." (ground arith) in
      let empty : String.[] ≡ a = cc found in
      let same : s ≡ b = cc found in rw (← empty, ← same, dot, nil-append (String.◌∷◌ "." s)) refl
  split_step_parts false none e rest a b found = absurd (cc (found))
  split_step_parts false (some (before, after)) e rest a b found =
      let first : String.◌∷◌ c before ≡ a = cc found in
      let same : after ≡ b = cc found in
      rw (← first, ← same, cons-append c before (String.◌∷◌ "." after))
        (ap (λ t. String.◌∷◌ c t) (rest before after refl))

split_dot_parts : (v a b : String) → split_dot v ≡ some (a, b) → v ≡ a ++ String.◌∷◌ "." b
unfolding split_dot
split_dot_parts String.[] a b e = absurd (cc (e))
split_dot_parts (String.◌∷◌ c s) a b e =
    split_step_parts c s (code c == b'.') (split_dot s) refl (split_dot_parts s) a b e

-- A request id in the shape of a UUID, and a secret in that of 32 bytes of base64url.
abbrev pub IsWellFormed : Identity → Type 0
IsWellFormed i = (is_uuid_shape (codes i.request_id) ≡ true) × (is_b64url_32 i.secret.text ≡ true)

read_back : (i : Identity) → IsWellFormed i → parse (cookie_value i) ≡ some i
unfolding parse cookie_value parse_secret
read_back i wf =
    let split =
      split_dot-append i.request_id i.secret.text
        (is_uuid_shape-no_dot (codes i.request_id) wf.0) in
    rw (split, wf.0, wf.1) refl

module _ (v : String) (i : Identity) where
  parsed_parts :
      (parts : Option (String × String))
      → split_dot v ≡ parts
      → parse_parts parts ≡ some i
      → (v ≡ cookie_value i) × IsWellFormed i
  unfolding cookie_value parse_secret
  parsed_parts none split e = absurd (cc (e))
  parsed_parts (some (a, b)) split e = elim (Bool-cases (is_uuid_shape (codes a))) [
    | inr no_uuid ↦ absurd (cc (e, no_uuid))
    | inl uuid ↦ elim (Bool-cases (is_b64url_32 b)) [
      | inr no_secret ↦ absurd (cc (e, uuid, no_secret))
      | inl secret ↦
          let found : some (record { request_id = a; secret = record { text = b } }) ≡ some i =
            rw (uuid, secret) at e in
          let same : record { request_id = a; secret = record { text = b } } ≡ i = cc found in
          rw (← same) (split_dot_parts v a b split, (uuid, secret))
    ]
  ]

  -- A cookie is read as an identity exactly where it is what that identity is written as, and the
  -- identity is well formed.
  pub parse-cookie_value : (parse v ≡ some i) ↔ ((v ≡ cookie_value i) × IsWellFormed i)
  unfolding parse
  parse-cookie_value = (parsed_parts (split_dot v) refl, λ h. rw (h.0) (read_back i h.1))
