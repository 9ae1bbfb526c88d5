-- ===== src/Rules/Normal.antt =====
-- `normalized_path` of crates/wr-common/src/rules.rs: what its last steps keep of the loop's result.
use virtual_waiting_room.Prelude.{
  ltb, ℕ, suc, ◌≡◌, refl, ◌∙◌, Bool, true, false, ◌&&◌, ◌==◌, Bool-cases, inl, inr, List, [], ◌∷◌,
  length, arith,
}
use virtual_waiting_room.Prelude.Text.{all}
use virtual_waiting_room.Prelude.Chars.{Text, starts_with, contains_text, to_ascii_lower}
use virtual_waiting_room.Rules.{simplified, close_dot, lower, normalized_path, percent_decode}
use virtual_waiting_room.Rules.Path.{double_slash, dot_segment, simplified-IsSimple}

-- The text ends in a `.` segment.
abbrev pub ends_dot : Text → Bool
ends_dot [] = false
ends_dot (a ∷ []) = false
ends_dot (a ∷ b ∷ []) = a == b'/' && b == b'.'
ends_dot (a ∷ b ∷ c ∷ cs) = ends_dot (b ∷ c ∷ cs)

starts_with-close_dot :
    (cs ds : Text) → starts_with (close_dot cs) ds ≡ true → starts_with cs ds ≡ true
unfolding starts_with close_dot
starts_with-close_dot [] ds h = h
starts_with-close_dot (a ∷ []) ds h = h
starts_with-close_dot (a ∷ b ∷ cs) [] h = refl
starts_with-close_dot (a ∷ b ∷ []) (d ∷ []) h = ground arith
starts_with-close_dot (a ∷ b ∷ []) (d ∷ e ∷ ds) h = ground arith
starts_with-close_dot (a ∷ b ∷ c ∷ cs) (d ∷ ds) h =
    ground (arith, starts_with-close_dot (b ∷ c ∷ cs) ds)

contains_text-close_dot :
    (cs ds : Text) → contains_text (close_dot cs) ds ≡ true → contains_text cs ds ≡ true
unfolding contains_text close_dot
contains_text-close_dot [] ds h = h
contains_text-close_dot (a ∷ []) ds h = h
contains_text-close_dot (a ∷ b ∷ []) ds h = ground (arith, starts_with-close_dot (a ∷ b ∷ []) ds)
contains_text-close_dot (a ∷ b ∷ c ∷ cs) ds h =
    ground
      (arith, starts_with-close_dot (a ∷ b ∷ c ∷ cs) ds, contains_text-close_dot (b ∷ c ∷ cs) ds)

close_dot-ends_dot : (cs : Text) → ends_dot (close_dot cs) ≡ false
unfolding close_dot
close_dot-ends_dot [] = refl
close_dot-ends_dot (a ∷ []) = refl
close_dot-ends_dot (a ∷ b ∷ []) = ground arith
close_dot-ends_dot (a ∷ b ∷ c ∷ []) = ground arith
close_dot-ends_dot (a ∷ b ∷ c ∷ d ∷ []) = ground (arith, close_dot-ends_dot (b ∷ c ∷ d ∷ []))
close_dot-ends_dot (a ∷ b ∷ c ∷ d ∷ e ∷ es) = close_dot-ends_dot (b ∷ c ∷ d ∷ e ∷ es)

-- Lower case touches neither `/` nor `.`.
starts_with-lower :
    (cs ds : Text) → all (λ d. ltb d b'A') ds ≡ true → starts_with (lower cs) ds ≡ starts_with cs ds
unfolding starts_with to_ascii_lower
starts_with-lower [] [] h = refl
starts_with-lower [] (d ∷ ds) h = refl
starts_with-lower (c ∷ cs) [] h = refl
starts_with-lower (c ∷ cs) (d ∷ ds) h = ground (arith, starts_with-lower cs ds)

contains_text-lower :
    (cs ds : Text)
    → all (λ d. ltb d b'A') ds ≡ true
    → contains_text (lower cs) ds ≡ contains_text cs ds
unfolding contains_text
contains_text-lower [] ds h = refl
contains_text-lower (c ∷ cs) ds h =
    cc (starts_with-lower (c ∷ cs) ds h, contains_text-lower cs ds h)

ends_dot-lower : (cs : Text) → ends_dot (lower cs) ≡ ends_dot cs
unfolding to_ascii_lower
ends_dot-lower [] = refl
ends_dot-lower (a ∷ []) = refl
ends_dot-lower (a ∷ b ∷ []) = ground arith
ends_dot-lower (a ∷ b ∷ c ∷ cs) = ends_dot-lower (b ∷ c ∷ cs)

finished :
    (p ds : Text)
    → all (λ d. ltb d b'A') ds ≡ true
    → contains_text p ds ≡ false
    → contains_text (lower (close_dot p)) ds ≡ false
finished p ds plain h =
    contains_text-lower (close_dot p) ds plain ∙ absent (contains_text-close_dot p ds)
  where
    absent :
        (contains_text (close_dot p) ds ≡ true → contains_text p ds ≡ true)
        → contains_text (close_dot p) ds ≡ false
    absent k = elim (Bool-cases (contains_text (close_dot p) ds)) [
      | inl e ↦ absurd (cc (k e, h))
      | inr e ↦ e
    ]

-- The path that the prefixes are compared with holds no doubled slash and no `/./`, and does not end
-- in `/.`, whatever the request's path and its escapes.
pub normalized_path-IsSimple :
    (utf8 : Text → List ℕ) (from_utf8_lossy : List ℕ → Text) (path : Text)
    → let p : Text = normalized_path utf8 from_utf8_lossy path in
      (contains_text p double_slash ≡ false)
      × (contains_text p dot_segment ≡ false)
      × (ends_dot p ≡ false)
unfolding normalized_path
normalized_path-IsSimple utf8 from_utf8_lossy path =
    let p = from_utf8_lossy (percent_decode (utf8 path)) in
    let simple = simplified-IsSimple p in
    (
      finished _ double_slash refl simple.0,
      finished _ dot_segment refl simple.1,
      ends_dot-lower (close_dot (simplified (suc (length p)) p)) ∙ close_dot-ends_dot _,
    )
