-- ===== src/Frontend/Moderation/Normal.antt =====
-- The shape of a normalized review text.
use stellar_true_stub.Common.{
  ℕ, ◌≡◌, ◌⊎◌, refl, inl, inr, Bool, true, false, not, ◌&&◌, ◌||◌, List, [], ◌∷◌, map,
  if◌then◌else◌, ◌==◌, collapse, trim_start, trim_end, is_space, All, arith, Bool-cases,
}
use stellar_true_stub.Frontend.Moderation.{
  strip_marks, unleet, blank, is_alphanumeric, simplify, normalize_review_text,
}

-- Letters a to z, digits and single blanks between words, `after_blank` saying whether the
-- beginning counts as a blank; the end must not follow a blank.
abbrev pub is_spaced : Bool → List ℕ → Bool
is_spaced after_blank [] = not after_blank
is_spaced after_blank (c ∷ s) =
    if c == 32 then not after_blank && is_spaced true s else is_alphanumeric c && is_spaced false s

-- The same, with a blank at the end allowed.
abbrev is_loose : Bool → List ℕ → Bool
is_loose after_blank [] = true
is_loose after_blank (c ∷ s) =
    if c == 32 then not after_blank && is_loose true s else is_alphanumeric c && is_loose false s

abbrev IsBlanked : ℕ → Type 0
IsBlanked c = (is_alphanumeric c || is_space c) ≡ true

not_space : (c : ℕ) → is_alphanumeric c ≡ true → is_space c ≡ false
unfolding is_alphanumeric is_space
not_space c h = ground arith

-- A character that is no white space is no blank, and a blank is no letter.
not_blank : (c : ℕ) → is_space c ≡ false → (c == 32) ≡ false
unfolding is_space
not_blank c h = ground arith

blank_is_space : (c : ℕ) → (c == 32) ≡ true → is_space c ≡ true
unfolding is_space
blank_is_space c h = ground arith

blank-IsBlanked : (s : List ℕ) → All IsBlanked (map blank s)
unfolding blank is_space
blank-IsBlanked [] = tt
blank-IsBlanked (c ∷ s) = (ground arith, blank-IsBlanked s)

collapse-is_loose :
    (spaced : Bool) (s : List ℕ) → All IsBlanked s → is_loose spaced (collapse spaced s) ≡ true
unfolding collapse
collapse-is_loose spaced [] h = refl
collapse-is_loose spaced (c ∷ s) (p, h) = elim (Bool-cases (is_space c)) [
  | inl blank_there ↦ ground (arith, collapse-is_loose true s h)
  | inr letter ↦ rw (letter, not_blank c letter) (ground (arith, collapse-is_loose false s h))
]

trim_start-is_loose :
    (a : Bool) (s : List ℕ) → is_loose a s ≡ true → is_loose true (trim_start s) ≡ true
unfolding trim_start
trim_start-is_loose a [] h = refl
trim_start-is_loose a (c ∷ s) h =
    ground (arith, trim_start-is_loose true s, not_space c, blank_is_space c, not_blank c)

trim_end-is_spaced :
    (a : Bool) (s : List ℕ)
    → is_loose a s ≡ true
    → (trim_end s ≡ []) ⊎ (is_spaced a (trim_end s) ≡ true)
unfolding trim_end
trim_end-is_spaced a [] h = inl refl
trim_end-is_spaced a (c ∷ s) h = ground (
  arith,
  trim_end-is_spaced true s,
  trim_end-is_spaced false s,
  not_space c,
  blank_is_space c,
  not_blank c,
)

-- Whatever the text and however Unicode folds it, the normalized text is empty or consists of words
-- of letters a to z and digits with one blank between two words, and none before the first or
-- after the last.
pub normalize_review_text-is_spaced :
    (fold : List ℕ → List ℕ) (text : List ℕ)
    → (normalize_review_text fold text ≡ [])
      ⊎ (is_spaced true (normalize_review_text fold text) ≡ true)
unfolding normalize_review_text simplify
normalize_review_text-is_spaced fold [] = inl refl
normalize_review_text-is_spaced fold (c ∷ s) =
    let folded = map blank (map unleet (strip_marks (fold (c ∷ s)))) in
    trim_end-is_spaced true (trim_start (collapse false folded)) (
      trim_start-is_loose false (collapse false folded)
        (collapse-is_loose false folded (blank-IsBlanked _)))
