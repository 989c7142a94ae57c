-- ===== src/Frontend/Moderation/Evasion.antt =====
-- Words of the profanity list that a punctuation mark hides, and a harmless word that is rejected.
use stellar_true_stub.Common.{
  ℕ, not, ◌≡◌, refl, Bool, true, false, List, [], ◌∷◌, ◌++◌, codes, text_eq_iff, arith, all, ap,
  is_space,
}
use stellar_true_stub.Frontend.Moderation.{
  ModerationStatus, profanity_list, abuse_phrases, is_listed, is_empty, filter_review_content,
  normalize_review_text, simplify, judge, tokenize, flagged_phrases, flagged_tokens,
  is_alphanumeric,
}

abbrev passes : List ℕ → Bool
passes word = (judge (simplify (word ++ codes "!"))).approved

all_of_listed :
    (p : List ℕ → Bool) (words : List (List ℕ)) (w : List ℕ)
    → all p words ≡ true
    → is_listed words w ≡ true
    → p w ≡ true
unfolding is_listed
all_of_listed p [] w h m = cc
all_of_listed p (x ∷ words) w h m = ground (arith, all_of_listed p words w, text_eq_iff w x)

passes_table : all passes profanity_list ≡ true
unfolding judge simplify profanity_list tokenize flagged_phrases flagged_tokens is_alphanumeric
    is_listed abuse_phrases is_space
passes_table = refl

judge_not_empty :
    (fold : List ℕ → List ℕ) (s : List ℕ)
    → (judge (normalize_review_text fold s)).approved ≡ true
    → is_empty (normalize_review_text fold s) ≡ false
    → (filter_review_content fold s).status ≡ ModerationStatus.approved
unfolding filter_review_content judge
judge_not_empty fold s h e = ground arith

normalized_of :
    (fold : List ℕ → List ℕ) (word : List ℕ)
    → fold (word ++ codes "!") ≡ word ++ codes "!"
    → normalize_review_text fold (word ++ codes "!") ≡ simplify (word ++ codes "!")
unfolding normalize_review_text
normalized_of fold [] same = ap simplify same
normalized_of fold (c ∷ word) same = ap simplify same

fills : List ℕ → Bool
fills word = not (is_empty (simplify (word ++ codes "!")))

fills_table : all fills profanity_list ≡ true
unfolding fills simplify profanity_list is_alphanumeric is_space
fills_table = refl

-- Every word on the profanity list passes the filter as approved when an exclamation mark follows it,
-- where folding leaves that text as it is: the mark is read as a letter, so the token is another.
pub exclamation-approved :
    (fold : List ℕ → List ℕ) (word : List ℕ)
    → is_listed profanity_list word ≡ true
    → fold (word ++ codes "!") ≡ word ++ codes "!"
    → (filter_review_content fold (word ++ codes "!")).status ≡ ModerationStatus.approved
unfolding fills
exclamation-approved fold word listed same =
    let normal : normalize_review_text fold (word ++ codes "!") ≡ simplify (word ++ codes "!") =
      normalized_of fold word same in
    judge_not_empty fold (word ++ codes "!")
      (rw normal (all_of_listed passes profanity_list word passes_table listed))
      (rw normal (ground (arith, all_of_listed fills profanity_list word fills_table listed)))
