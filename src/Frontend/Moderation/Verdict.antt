-- ===== src/Frontend/Moderation/Verdict.antt =====
-- When a review is approved, held or rejected, and what is flagged.
use stellar_true_stub.Common.{
  ℕ, ◌≡◌, ◌↔◌, ◌⊎◌, refl, inl, inr, true, false, not, ◌&&◌, ◌||◌, List, [], ◌∷◌, ◌++◌, text_eq,
  text_eq_iff, includes_text, any, any-append, arith, Bool-cases,
}
use stellar_true_stub.Frontend.Moderation.{
  ModerationStatus, held, rejected, profanity_list, abuse_phrases, normalize_review_text, tokenize,
  is_listed, flagged_phrases, flagged_tokens, is_empty, contains_profanity, filter_review_content,
  judge,
}

flagged_phrases_empty :
    (text : List ℕ) (ps : List (List ℕ))
    → is_empty (flagged_phrases text ps) ≡ not (any (includes_text text) ps)
unfolding flagged_phrases
flagged_phrases_empty text [] = refl
flagged_phrases_empty text (p ∷ ps) = ground (arith, flagged_phrases_empty text ps)

is_listed-append :
    (w t : List ℕ) (flagged : List (List ℕ))
    → is_listed (flagged ++ t ∷ []) w ≡ (is_listed flagged w || text_eq w t)
unfolding is_listed
is_listed-append w t flagged = ground (arith, any-append (text_eq w) flagged (t ∷ []))

-- What the loop over the tokens flags, as a set.
is_listed-flagged_tokens :
    (w : List ℕ) (flagged ts : List (List ℕ))
    → is_listed (flagged_tokens flagged ts) w
      ≡ (is_listed flagged w || (is_listed profanity_list w && is_listed ts w))
unfolding flagged_tokens is_listed
is_listed-flagged_tokens w flagged [] = ground arith
is_listed-flagged_tokens w flagged (t ∷ ts) = ground (
  arith,
  is_listed-flagged_tokens w flagged ts,
  is_listed-flagged_tokens w (flagged ++ t ∷ []) ts,
  is_listed-append w t flagged,
  text_eq_iff w t,
)

-- No word is flagged twice.
abbrev pub IsDistinct : List (List ℕ) → Type 0
IsDistinct [] = Unit
IsDistinct (w ∷ ws) = (is_listed ws w ≡ false) × IsDistinct ws

IsDistinct-append :
    (ws : List (List ℕ)) (t : List ℕ)
    → IsDistinct ws
    → is_listed ws t ≡ false
    → IsDistinct (ws ++ t ∷ [])
unfolding is_listed
IsDistinct-append [] t d n = (refl, tt)
IsDistinct-append (w ∷ ws) t (h, d) n = (
  ground (arith, is_listed-append w t ws, text_eq_iff w t, text_eq_iff t w),
  IsDistinct-append ws t d (ground arith),
)

flagged_tokens-IsDistinct :
    (flagged ts : List (List ℕ)) → IsDistinct flagged → IsDistinct (flagged_tokens flagged ts)
unfolding flagged_tokens
flagged_tokens-IsDistinct flagged [] d = d
flagged_tokens-IsDistinct flagged (t ∷ ts) d =
    elim (Bool-cases (is_listed profanity_list t && not (is_listed flagged t))) [
      | inl new ↦ rw new (
          flagged_tokens-IsDistinct (flagged ++ t ∷ []) ts
            (IsDistinct-append flagged t d (ground arith)))
      | inr old ↦ rw old (flagged_tokens-IsDistinct flagged ts d)
    ]

-- The loop flags nothing exactly when no token is profane.
flagged_tokens_empty :
    (flagged ts : List (List ℕ))
    → is_empty (flagged_tokens flagged ts)
      ≡ (is_empty flagged && not (any (is_listed profanity_list) ts))
unfolding flagged_tokens is_listed
flagged_tokens_empty [] [] = refl
flagged_tokens_empty (f ∷ fs) [] = refl
flagged_tokens_empty [] (t ∷ ts) =
    ground (arith, flagged_tokens_empty [] ts, flagged_tokens_empty (t ∷ []) ts)
flagged_tokens_empty (f ∷ fs) (t ∷ ts) =
    ground (arith, flagged_tokens_empty (f ∷ fs) ts, flagged_tokens_empty (f ∷ fs ++ t ∷ []) ts)

module _ (fold : List ℕ → List ℕ) (text : List ℕ) where
  abbrev normalized : List ℕ
  normalized = normalize_review_text fold text

  -- A review is approved exactly when its normalized text is not empty and `containsProfanity` does
  -- not find anything; it is rejected exactly when its normalized text is empty or contains an
  -- abusive phrase. Otherwise it is held.
  pub filter_status :
      (((filter_review_content fold text).status ≡ ModerationStatus.approved)
        ↔ ((is_empty normalized ≡ false) × (contains_profanity fold text ≡ false)))
      × (((filter_review_content fold text).status ≡ rejected)
          ↔ ((is_empty normalized ≡ true) ⊎ (any (includes_text normalized) abuse_phrases ≡ true)))
  unfolding filter_review_content contains_profanity judge
  filter_status = ground (
    arith,
    flagged_phrases_empty normalized abuse_phrases,
    flagged_tokens_empty [] (tokenize normalized),
  )

  held_flags :
      (filter_review_content fold text).status ≡ held
      → (filter_review_content fold text).flagged_terms ≡ flagged_tokens [] (tokenize normalized)
  unfolding filter_review_content judge
  held_flags h = ground arith

  -- Of a review that is held, the flagged terms are exactly the tokens of its normalized text that
  -- are on the list of profanities, each once.
  pub held_terms :
      (filter_review_content fold text).status ≡ held
      → ((w : List ℕ)
          → is_listed (filter_review_content fold text).flagged_terms w
            ≡ (is_listed profanity_list w && is_listed (tokenize normalized) w))
        × IsDistinct (filter_review_content fold text).flagged_terms
  unfolding is_listed
  held_terms h = rw (held_flags h) (
    (λ w. is_listed-flagged_tokens w [] (tokenize normalized)),
    flagged_tokens-IsDistinct [] (tokenize normalized) tt,
  )
