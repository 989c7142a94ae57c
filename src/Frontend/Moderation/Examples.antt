-- ===== src/Frontend/Moderation/Examples.antt =====
-- The theorems on the review filter at concrete texts, where folding changes nothing.
use stellar_true_stub.Common.{ℕ, ◌≡◌, refl, true, List, ◌++◌, codes, is_space}
use stellar_true_stub.Frontend.Moderation.{
  ModerationStatus, rejected, profanity_list, abuse_phrases, is_listed, tokenize,
  normalize_review_text, filter_review_content, simplify, flagged_phrases, flagged_tokens,
  is_alphanumeric, should_hold_for_moderation,
}
use stellar_true_stub.Frontend.Moderation.Evasion.{exclamation-approved}

abbrev same : List ℕ → List ℕ
same s = s

abbrev rude : List ℕ
rude = codes "what a $tup1d, stupid moron"

-- "skyscraper" contains "kys".
skyscraper_rejected : (filter_review_content same (codes "a skyscraper view")).status ≡ rejected
unfolding filter_review_content normalize_review_text simplify flagged_phrases flagged_tokens
    tokenize is_alphanumeric is_listed abuse_phrases profanity_list is_space
skyscraper_rejected = refl

exclamation-approved_example :
    (filter_review_content same (codes "damn" ++ codes "!")).status ≡ ModerationStatus.approved
unfolding is_listed profanity_list
exclamation-approved_example = exclamation-approved same (codes "damn") refl refl

skyscraper_held : should_hold_for_moderation same (codes "a skyscraper view") ≡ true
unfolding should_hold_for_moderation filter_review_content normalize_review_text simplify
    flagged_phrases flagged_tokens tokenize is_alphanumeric is_listed abuse_phrases profanity_list
    is_space
skyscraper_held = refl
