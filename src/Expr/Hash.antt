-- ===== src/Expr/Hash.antt =====
-- Texts as code points, and the `#` that parts the keys of crates/wr-common/src/expr.rs.
use Prim.Native.Char.{code}
use Prim.Native.String.{String, ◌++◌ as append}
use text.Mathlib.TextEquality.{Char-path}
use text.Mathlib.TextLemmas.{nil-append, cons-append}
use virtual_waiting_room.Prelude.{
  ℕ, ◌≡◌, ◌≢◌, refl, ap, Bool, true, ◌==◌, not, List, [], ◌∷◌, ◌++◌, arith,
}
use virtual_waiting_room.Prelude.Text.{codes, all}

pub codes-append : (x y : String) → codes (append x y) ≡ codes x ++ codes y
codes-append String.[] y = rw (nil-append y) refl
codes-append (String.◌∷◌ c x) y = rw (cons-append c x y) (ap (λ r. code c ∷ r) (codes-append x y))

pub codes-injective : (x y : String) → codes x ≡ codes y → x ≡ y
codes-injective String.[] String.[] e = refl
codes-injective String.[] (String.◌∷◌ d y) e = absurd (ground arith)
codes-injective (String.◌∷◌ c x) String.[] e = absurd (ground arith)
codes-injective (String.◌∷◌ c x) (String.◌∷◌ d y) e =
    let first : code c ≡ code d = ground arith in
    let rest : codes x ≡ codes y = ground arith in
    rw (Char-path c d first, codes-injective x y rest) refl

abbrev pub no_hash : ℕ → Bool
no_hash c = not (c == b'#')

-- What stands before the first `#`, and what after it.
pub split_hash :
    (a b r t : List ℕ)
    → all no_hash a ≡ true
    → all no_hash b ≡ true
    → a ++ b'#' ∷ r ≡ b ++ b'#' ∷ t
    → (a ≡ b) × (r ≡ t)
split_hash [] [] r t ha hb e = (refl, ground arith)
split_hash [] (y ∷ b) r t ha hb e = absurd (ground arith)
split_hash (x ∷ a) [] r t ha hb e = absurd (ground arith)
split_hash (x ∷ a) (y ∷ b) r t ha hb e =
    let rest = split_hash a b r t (ground arith) (ground arith) (ground arith) in
    (ground (arith, rest.0), rest.1)

pub no_hash_end : (a b r : List ℕ) → all no_hash b ≡ true → a ++ b'#' ∷ r ≢ b
no_hash_end [] [] r hb e = ground arith
no_hash_end [] (y ∷ b) r hb e = ground arith
no_hash_end (x ∷ a) [] r hb e = ground arith
no_hash_end (x ∷ a) (y ∷ b) r hb e = no_hash_end a b r (ground arith) (ground arith)
