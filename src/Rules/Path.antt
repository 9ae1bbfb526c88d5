-- ===== src/Rules/Path.antt =====
-- The path that a prefix is compared with, of crates/wr-common/src/rules.rs: a request cannot get
-- around a prefix by a doubled slash or a `.` segment.
use virtual_waiting_room.Prelude.{
  leb, ℕ, zero, suc, ◌≤◌, ◌<◌, ◌≡◌, refl, ◌∙◌, ap, Bool, true, false, ◌&&◌, ◌==◌, Bool-cases, inl,
  inr, [], ◌∷◌, length, arith,
}
use virtual_waiting_room.Prelude.Chars.{
  Text, eq_text, eq_text_self, eq_of_eq_text, starts_with, contains_text,
}
use virtual_waiting_room.Rules.{collapse_from, collapse_slashes, drop_dots, simplify, simplified}

abbrev pub double_slash : Text
double_slash = b'/' ∷ b'/' ∷ []

abbrev pub dot_segment : Text
dot_segment = b'/' ∷ b'.' ∷ b'/' ∷ []

collapse_from-le : (slash : Bool) (cs : Text) → length (collapse_from slash cs) ≤ length cs
unfolding collapse_from
collapse_from-le slash [] = omega arith
collapse_from-le slash (c ∷ cs) = ground (arith, collapse_from-le (c == b'/') cs)

-- A text that loses nothing is the one it was, and has no doubled slash.
collapse_from_kept :
    (slash : Bool) (cs : Text)
    → length cs ≤ length (collapse_from slash cs)
    → (collapse_from slash cs ≡ cs)
      × ((slash && starts_with cs (b'/' ∷ [])) ≡ false)
      × (contains_text cs double_slash ≡ false)
unfolding collapse_from starts_with contains_text
collapse_from_kept slash [] h = (refl, ground arith, refl)
collapse_from_kept slash (c ∷ cs) h =
    ground (arith, collapse_from-le (c == b'/') cs, collapse_from_kept (c == b'/') cs)

drop_dots-le : (cs : Text) → length (drop_dots cs) ≤ length cs
unfolding drop_dots
drop_dots-le [] = omega arith
drop_dots-le (a ∷ []) = omega arith
drop_dots-le (a ∷ b ∷ []) = ground (arith, drop_dots-le (b ∷ []))
drop_dots-le (a ∷ b ∷ c ∷ cs) = ground (arith, drop_dots-le cs, drop_dots-le (b ∷ c ∷ cs))

drop_dots_kept :
    (cs : Text)
    → length cs ≤ length (drop_dots cs)
    → (drop_dots cs ≡ cs) × (contains_text cs dot_segment ≡ false)
unfolding drop_dots starts_with contains_text
drop_dots_kept [] h = (refl, refl)
drop_dots_kept (a ∷ []) h = ground arith
drop_dots_kept (a ∷ b ∷ []) h = ground (arith, drop_dots_kept (b ∷ []))
drop_dots_kept (a ∷ b ∷ c ∷ cs) h =
    ground (arith, drop_dots-le cs, drop_dots-le (b ∷ c ∷ cs), drop_dots_kept (b ∷ c ∷ cs))

-- Neither a doubled slash nor a `.` segment within the text.
abbrev pub IsSimple : Text → Type 0
IsSimple p = (contains_text p double_slash ≡ false) × (contains_text p dot_segment ≡ false)

simplify-le : (p : Text) → length (simplify p) ≤ length p
unfolding collapse_slashes
simplify-le p = omega (arith, drop_dots-le (collapse_slashes p), collapse_from-le false p)

simplify_kept : (p : Text) → length p ≤ length (simplify p) → (simplify p ≡ p) × IsSimple p
unfolding collapse_slashes
simplify_kept p h =
    let collapsed =
      collapse_from_kept false p
        (omega (arith, drop_dots-le (collapse_slashes p), collapse_from-le false p)) in
    let dropped =
      drop_dots_kept (collapse_slashes p)
        (omega (arith, drop_dots-le (collapse_slashes p), collapse_from-le false p)) in
    (dropped.0 ∙ collapsed.0, (collapsed.2, rw (collapsed.0) at (dropped.1)))

-- A round that changes the text shortens it.
simplify-lt : (p : Text) → eq_text (simplify p) p ≡ false → length (simplify p) < length p
simplify-lt p e = elim (Bool-cases (leb (length p) (length (simplify p)))) [
  | inl le ↦
      let same = (simplify_kept p (ground arith)).0 in
      let equal : eq_text (simplify p) p ≡ true = rw same (eq_text_self p) in absurd (cc (e, equal))
  | inr gt ↦ ground arith
]

-- The loop ends within its fuel, at a text that a further round would not change.
simplified_settles :
    (fuel : ℕ) (p : Text) → length p < fuel → simplify (simplified fuel p) ≡ simplified fuel p
unfolding simplified
simplified_settles zero p h = absurd (omega arith)
simplified_settles (suc fuel) p h = elim (Bool-cases (eq_text (simplify p) p)) [
  | inl e ↦ rw e (eq_of_eq_text _ _ e)
  | inr e ↦ rw e (simplified_settles fuel (simplify p) (omega (arith, simplify-lt p e)))
]

pub simplified-IsSimple : (p : Text) → IsSimple (simplified (suc (length p)) p)
simplified-IsSimple p =
    let settled = simplified_settles (suc (length p)) p (omega arith) in
    (simplify_kept (simplified (suc (length p)) p) (omega (arith, ap length settled))).1
