-- ===== src/Backend/Dispute/Lists/Pages.antt =====
-- The pages of the disputes of a user in dispute.service.ts.
use stellar_true_stub.Common.{
  ℕ, zero, suc, ◌+◌, ◌≤◌, ◌<◌, ◌≡◌, ◌↔◌, refl, sym, ap, ◌∙◌, inl, inr, String, true, Option, some,
  List, [], ◌∷◌, ◌++◌, if◌then◌else◌, leb, arith, filter, Mem, here, there, filter-Mem, Bool-cases,
  length, drop, take, str_eq, eq_iff, All, Mem-cons, take-drop, drop-drop, length-take, drop_all,
  length-drop,
}
use stellar_true_stub.Map
use stellar_true_stub.Backend.Dispute.Types.{Dispute}
use stellar_true_stub.Backend.Dispute.{Store}
use stellar_true_stub.Backend.Dispute.Lists.{
  Number, integer, page_limit, page_offset, insert_newest, newest_first, DisputePage,
  list_disputes_by_user_paginated,
}
use stellar_true_stub.Backend.Dispute.Types.{pos}

-- The disputes of the user, in the order of the pages.
unfoldable pub history : String → Store → List Dispute
history user s = newest_first (filter (λ d. str_eq d.raised_by user) (Map.values s))

-- Later in the list is opened earlier.
pub IsNewestFirst : List Dispute → Type 0
IsNewestFirst [] = Unit
IsNewestFirst (d ∷ ds) = All (λ e. e.opened_at ≤ d.opened_at) ds × IsNewestFirst ds

All-insert :
    (n : ℕ) (d : Dispute) (ds : List Dispute)
    → d.opened_at ≤ n
    → All (λ e. e.opened_at ≤ n) ds
    → All (λ e. e.opened_at ≤ n) (insert_newest d ds)
unfolding insert_newest
All-insert n d [] h all = (h, tt)
All-insert n d (e ∷ es) h (first, rest) = elim (Bool-cases (leb e.opened_at d.opened_at)) [
  | inl older ↦ rw older (h, (first, rest))
  | inr newer ↦ rw newer (first, All-insert n d es h rest)
]

All-le :
    (m n : ℕ) (ds : List Dispute)
    → m ≤ n
    → All (λ e. e.opened_at ≤ m) ds
    → All (λ e. e.opened_at ≤ n) ds
All-le m n [] h all = tt
All-le m n (d ∷ ds) h (first, rest) = (omega (arith, h, first), All-le m n ds h rest)

insert-IsNewestFirst :
    (d : Dispute) (ds : List Dispute) → IsNewestFirst ds → IsNewestFirst (insert_newest d ds)
unfolding insert_newest IsNewestFirst
insert-IsNewestFirst d [] h = (tt, tt)
insert-IsNewestFirst d (e ∷ es) (all, sorted) = elim (Bool-cases (leb e.opened_at d.opened_at)) [
  | inl older ↦
      let le : e.opened_at ≤ d.opened_at = ground (arith, older) in
      rw older ((le, All-le e.opened_at d.opened_at es le all), (all, sorted))
  | inr newer ↦
      let le : d.opened_at ≤ e.opened_at = ground (arith, newer) in
      rw newer (All-insert e.opened_at d es le all, insert-IsNewestFirst d es sorted)
]

newest_first-IsNewestFirst : (ds : List Dispute) → IsNewestFirst (newest_first ds)
unfolding newest_first IsNewestFirst
newest_first-IsNewestFirst [] = tt
newest_first-IsNewestFirst (d ∷ ds) =
    insert-IsNewestFirst d (newest_first ds) (newest_first-IsNewestFirst ds)

Mem-insert : (x d : Dispute) (ds : List Dispute) → Mem x (insert_newest d ds) ↔ Mem x (d ∷ ds)
unfolding insert_newest
Mem-insert x d [] = (λ h. h, λ h. h)
Mem-insert x d (e ∷ es) = elim (Bool-cases (leb e.opened_at d.opened_at)) [
  | inl older ↦ rw older (λ h. h, λ h. h)
  | inr newer ↦ rw newer (swap (Mem-insert x d es))
]
  where
    swap :
        Mem x (insert_newest d es) ↔ Mem x (d ∷ es)
        → Mem x (e ∷ insert_newest d es) ↔ Mem x (d ∷ e ∷ es)
    swap (to, from) = (
      λ h. elim (Mem-cons x e _ h) [
        | inl same ↦ there (here same)
        | inr later ↦ elim (Mem-cons x d es (to later)) [
          | inl same ↦ here same
          | inr rest ↦ there (there rest)
        ]
      ],
      λ h. elim (Mem-cons x d _ h) [
        | inl same ↦ there (from (here same))
        | inr later ↦ elim (Mem-cons x e es later) [
          | inl same ↦ here same
          | inr rest ↦ there (from (there rest))
        ]
      ],
    )

newest_first-Mem : (x : Dispute) (ds : List Dispute) → Mem x (newest_first ds) ↔ Mem x ds
unfolding newest_first
newest_first-Mem x [] = (λ h. h, λ h. h)
newest_first-Mem x (d ∷ ds) =
    let rest = newest_first-Mem x ds in
    let first = Mem-insert x d (newest_first ds) in
    (
      λ h. elim (Mem-cons x d _ (first.0 h)) [
        | inl same ↦ here same
        | inr later ↦ there (rest.0 later)
      ],
      λ h.
          first.1
            (elim (Mem-cons x d ds h) [ inl same ↦ here same | inr later ↦ there (rest.1 later) ]),
    )

-- The list that the pages are cut from has the newest dispute first and holds exactly the stored
-- disputes that the user raised.
pub history-IsNewestFirst :
    (user : String) (s : Store)
    → IsNewestFirst (history user s)
      × ((d : Dispute) → Mem d (history user s) ↔ (Mem d (Map.values s) × (d.raised_by ≡ user)))
unfolding history
history-IsNewestFirst user s = (
  newest_first-IsNewestFirst (filter (λ d. str_eq d.raised_by user) (Map.values s)),
  λ d.
      let sorted = newest_first-Mem d (filter (λ d. str_eq d.raised_by user) (Map.values s)) in
      let kept = filter-Mem (λ d. str_eq d.raised_by user) d (Map.values s) in
      (
        λ h. let (stored, own) = kept.0 (sorted.0 h) in (stored, (eq_iff d.raised_by user).0 own),
        λ (stored, own). sorted.1 (kept.1 (stored, (eq_iff d.raised_by user).1 own)),
      ),
)

-- Whatever limit a call names, the size of its pages is between 1 and 50.
page_limit_bounds : (limit : Option Number) → (1 ≤ page_limit limit) × (page_limit limit ≤ 50)
unfolding page_limit
page_limit_bounds limit = (ground arith, ground arith)

module _ (user : String) (limit : Option Number) (s : Store) where
  -- The page at an offset.
  pub page_at : ℕ → DisputePage
  page_at offset = list_disputes_by_user_paginated user limit (some (integer (pos offset))) s

  -- A page is the part of the list that starts at the offset; it is no longer than its limit, which
  -- lies between 1 and 50, its `total` is the number of the user's disputes, and it says that there
  -- is more exactly when the list goes on behind it.
  pub page_at_bounds :
      (offset : ℕ)
      → ((page_at offset).disputes ≡ take (page_at offset).limit (drop offset (history user s)))
        × (length (page_at offset).disputes ≤ (page_at offset).limit)
        × (1 ≤ (page_at offset).limit)
        × ((page_at offset).limit ≤ 50)
        × ((page_at offset).total ≡ length (history user s))
        × (((page_at offset).has_more ≡ true)
            ↔ (offset + (page_at offset).limit < (page_at offset).total))
  unfolding page_at list_disputes_by_user_paginated history page_offset
  page_at_bounds offset =
      let part = drop offset (history user s) in
      let size = length-take (page_limit limit) part in
      let left = length-drop offset (history user s) in
      let (low, high) = page_limit_bounds limit in
      (
        refl,
        ground (arith, size),
        low,
        high,
        refl,
        (λ more. ground (arith, size, left, more), λ more. ground (arith, size, left, more)),
      )

  -- What a client reads that follows `hasMore` from an offset, for at most `fuel` pages.
  pub read_pages : ℕ → ℕ → List Dispute
  read_pages zero offset = []
  read_pages (suc fuel) offset =
      let page = page_at offset in
      let rest = read_pages fuel (offset + page.limit) in
      page.disputes ++ (if page.has_more then rest else [])

  -- A client that starts at an offset and follows `hasMore` reads every dispute from there on once
  -- and in order, within as many pages as there are disputes left, and at least one.
  pub read_pages_all :
      (fuel offset : ℕ)
      → length (history user s) ≤ offset + fuel
      → 1 ≤ fuel
      → read_pages fuel offset ≡ drop offset (history user s)
  unfolding read_pages
  read_pages_all zero offset h one = absurd (omega (arith, one))
  read_pages_all (suc fuel) offset h one = elim (Bool-cases (page_at offset).has_more) [
    | inl more ↦
        let (cut, _, low, _, size, on) = page_at_bounds offset in
        let further = on.0 more in
        let rest =
          read_pages_all fuel (offset + (page_at offset).limit) (omega (arith, h, low))
            (omega (arith, h, low, size, further)) in
        rw (more, cut, rest)
          ((ap (λ t. take (page_at offset).limit (drop offset (history user s)) ++ t)
              (sym (drop-drop offset (page_at offset).limit (history user s))))
            ∙ take-drop (page_at offset).limit (drop offset (history user s)))
    | inr last ↦
        let part = drop offset (history user s) in
        let (cut, _, _, _, size, on) = page_at_bounds offset in
        let short : length part ≤ (page_at offset).limit =
          ground (arith, length-drop offset (history user s), on.1, last, size) in
        rw (last, cut)
          ((ap (λ t. take (page_at offset).limit part ++ t)
              (sym (drop_all (page_at offset).limit part short)))
            ∙ take-drop (page_at offset).limit part)
  ]
