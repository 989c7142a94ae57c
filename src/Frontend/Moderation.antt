-- ===== src/Frontend/Moderation.antt =====
-- apps/frontend/src/lib/moderation: the filter of review texts (review-content-filter.ts) and the
-- decision on a flagged listing (flagged-listings.ts). A text is the list of its code points.
-- `fold` is the composition of the language's `toLowerCase` and `normalize('NFKD')`, which stand
-- on Unicode's tables. A set of words is the list of them.
pub mod Normal
pub mod Verdict
pub mod Evasion
mod Examples
use stellar_true_stub.Common.{
  ℕ, String, Bool, true, false, not, ◌&&◌, ◌||◌, Option, none, some, List, [], ◌∷◌, ◌++◌, map,
  if◌then◌else◌, ◌==◌, collapse, trim_start, trim_end, codes, text_eq, includes_text, in_range,
  is_space, any, str_eq,
}

pub data ModerationStatus : Type 0 where
  approved held rejected : ModerationStatus

pub record ReviewContentFilterResult : Type 0 where
  pub approved : Bool
  pub status : ModerationStatus
  pub normalized_text : List ℕ
  pub flagged_terms : List (List ℕ)
  pub reason : Option String

pub profanity_list : List (List ℕ)
profanity_list =
    codes "asshole"
    ∷ codes "bastard"
    ∷ codes "bitch"
    ∷ codes "bullshit"
    ∷ codes "cunt"
    ∷ codes "damn"
    ∷ codes "dick"
    ∷ codes "douchebag"
    ∷ codes "fuck"
    ∷ codes "fucker"
    ∷ codes "fucking"
    ∷ codes "goddamn"
    ∷ codes "idiot"
    ∷ codes "jackass"
    ∷ codes "moron"
    ∷ codes "motherfucker"
    ∷ codes "nigger"
    ∷ codes "piss"
    ∷ codes "prick"
    ∷ codes "retard"
    ∷ codes "shit"
    ∷ codes "slut"
    ∷ codes "stupid"
    ∷ codes "whore"
    ∷ []

-- `ABUSE_LIST`, which is in lower case already.
pub abuse_phrases : List (List ℕ)
abuse_phrases =
    codes "kill yourself"
    ∷ codes "kys"
    ∷ codes "you should die"
    ∷ codes "hate you"
    ∷ codes "worthless piece of"
    ∷ []

-- `.replace(/[\u0300-\u036f]/g, '')`.
strip_marks : List ℕ → List ℕ
strip_marks [] = []
strip_marks (c ∷ s) = let rest = strip_marks s in if in_range 0x300 0x36f c then rest else c ∷ rest

-- The six replacements of look-alikes; none makes a character that a later one replaces.
pub unleet : ℕ → ℕ
unleet c =
    if c == b'@'
    then b'a'
    else if c == b'3'
    then b'e'
    else if c == b'1' || c == b'!' || c == b'|'
    then b'i'
    else if c == b'0'
    then b'o'
    else if c == b'$' || c == b'5'
    then b's'
    else if c == b'7'
    then b't'
    else c

pub is_alphanumeric : ℕ → Bool
is_alphanumeric c = in_range b'a' b'z' c || in_range b'0' b'9' c

-- `.replace(/[^a-z0-9\s]/g, ' ')`.
pub blank : ℕ → ℕ
blank c = if is_alphanumeric c || is_space c then c else 32

-- The replacements after `fold`.
pub simplify : List ℕ → List ℕ
unfolding strip_marks unleet blank collapse trim_start trim_end
simplify s = trim_end (trim_start (collapse false (map blank (map unleet (strip_marks s)))))

-- `split(' ').filter(Boolean)`; `word` is the current word, backwards.
abbrev pub flush : List ℕ → List (List ℕ) → List (List ℕ)
flush [] words = words
flush (c ∷ w) words = (c ∷ w) ∷ words

pub tokenize_from : List ℕ → List ℕ → List (List ℕ)
tokenize_from word [] = flush word []
tokenize_from word (c ∷ s) =
    let closed = flush word (tokenize_from [] s) in
    let longer = tokenize_from (word ++ c ∷ []) s in if c == 32 then closed else longer

pub tokenize : List ℕ → List (List ℕ)
unfolding tokenize_from
tokenize s = tokenize_from [] s

-- `list.includes(token)`, and `set.has(token)`.
pub is_listed : List (List ℕ) → List ℕ → Bool
is_listed words token = any (text_eq token) words

-- The loop over the abuse phrases.
pub flagged_phrases : List ℕ → List (List ℕ) → List (List ℕ)
flagged_phrases text [] = []
flagged_phrases text (p ∷ ps) =
    let rest = flagged_phrases text ps in if includes_text text p then p ∷ rest else rest

-- The loop over the tokens, with what it has flagged so far.
pub flagged_tokens : List (List ℕ) → List (List ℕ) → List (List ℕ)
flagged_tokens flagged [] = flagged
flagged_tokens flagged (t ∷ ts) =
    flagged_tokens
      (if is_listed profanity_list t && not (is_listed flagged t)
        then flagged ++ t ∷ []
        else flagged)
      ts

abbrev pub is_empty {ℓ} : {A : Type ℓ} → List A → Bool
is_empty [] = true
is_empty (x ∷ xs) = false

-- The part of `filterReviewContent` for a normalized text that is not empty.
pub judge : List ℕ → ReviewContentFilterResult
judge text =
    let phrases = flagged_phrases text abuse_phrases in
    let terms = flagged_tokens [] (tokenize text) in
    if not (is_empty phrases)
    then record {
      approved = false;
      status = rejected;
      normalized_text = text;
      flagged_terms = phrases;
      reason = some "This review contains abusive or harassing language and cannot be submitted.";
    }
    else if not (is_empty terms)
    then record {
      approved = false;
      status = held;
      normalized_text = text;
      flagged_terms = terms;
      reason =
          some "This review contains language that requires moderation before it can be published.";
    }
    else record {
      approved = true;
      status = ModerationStatus.approved;
      normalized_text = text;
      flagged_terms = [];
      reason = none;
    }

module _ (fold : List ℕ → List ℕ) where
  pub normalize_review_text : List ℕ → List ℕ
  normalize_review_text [] = []
  normalize_review_text (c ∷ s) = simplify (fold (c ∷ s))

  pub contains_profanity : List ℕ → Bool
  contains_profanity text =
      let normalized = normalize_review_text text in
      if is_empty normalized
      then false
      else any (is_listed profanity_list) (tokenize normalized)
        || any (includes_text normalized) abuse_phrases

  pub filter_review_content : List ℕ → ReviewContentFilterResult
  unfolding judge
  filter_review_content text =
      let normalized = normalize_review_text text in
      if is_empty normalized
      then record {
        approved = false;
        status = rejected;
        normalized_text = normalized;
        flagged_terms = [];
        reason = some "Review content cannot be empty.";
      }
      else judge normalized

  pub should_hold_for_moderation : List ℕ → Bool
  should_hold_for_moderation text = elim (filter_review_content text).status [
    | ModerationStatus.approved ↦ false
    | _ ↦ true
  ]
