-- ===== src/Frontend/Middleware/Roles.antt =====
-- Who reaches the pages of middleware.ts that are for one role.
use Prim.Native.Char.{code}
use stellar_true_stub.Common.{
  ℕ, ◌≡◌, ◌⊎◌, refl, sym, ap, ◌∙◌, inl, inr, subst, String, true, false, ◌==◌, none, List, [], ◌∷◌,
  Mem, Mem-cons, All, any, str_eq, eq_iff, get_or_else, is_some, strip_prefix, concat, Bool-cases,
  arith,
}
use stellar_true_stub.Map.{Map}
use stellar_true_stub.Frontend.RateLimit.{Entry}
use stellar_true_stub.Frontend.Middleware.{
  Request, next, starts_with, is_under, is_public_dashboard_path, role_restricted_paths, has_role,
  has_session, guard_page, middleware, public_dashboard_paths,
}
use stellar_true_stub.Frontend.Middleware.Decisions.{Permits, permits}

strip_prefix_self : (p : String) → is_some (strip_prefix p p) ≡ true
strip_prefix_self String.[] = refl
strip_prefix_self (String.◌∷◌ c p) =
    let same : (code c == code c) ≡ true = ground arith in rw same (strip_prefix_self p)

-- A text in front of a prefix.
strip_prefix-concat :
    (p q s : String)
    → is_some (strip_prefix (concat p q) s) ≡ true
    → is_some (strip_prefix p s) ≡ true
strip_prefix-concat String.[] q s h = refl
strip_prefix-concat (String.◌∷◌ c p) q String.[] h = h
strip_prefix-concat (String.◌∷◌ c p) q (String.◌∷◌ d s) h = elim (Bool-cases (code c == code d)) [
  | inl same ↦ rw same (strip_prefix-concat p q s (rw same at h))
  | inr other ↦ let k = rw other at h in cc
]

under-prefix : (s p : String) → is_under s p ≡ true → starts_with s p ≡ true
under-prefix s p h = elim (Bool-cases (str_eq s p)) [
  | inl same ↦
      subst (λ t. is_some (strip_prefix p t) ≡ true) (sym ((eq_iff s p).0 same))
        (strip_prefix_self p)
  | inr other ↦ strip_prefix-concat p "/" s (rw other at h)
]

not-any :
    (s : String) (l : List String)
    → All (λ p. starts_with s p ≡ false) l
    → any (is_under s) l ≡ false
not-any s [] h = refl
not-any s (p ∷ l) (k, h) = elim (Bool-cases (is_under s p)) [
  | inl at ↦ let u = under-prefix s p at in cc
  | inr off ↦ rw off (not-any s l h)
]

concat-nil : (p : String) → concat p "" ≡ p
concat-nil String.[] = refl
concat-nil (String.◌∷◌ c p) = ap (λ t. String.◌∷◌ c t) (concat-nil p)

starts_with-slash : (p s : String) → starts_with (concat p (concat "/" s)) (concat p "/") ≡ true
starts_with-slash String.[] s = refl
starts_with-slash (String.◌∷◌ c p) s =
    let same : (code c == code c) ≡ true = ground arith in rw same (starts_with-slash p s)

-- The path itself, or one below it.
abbrev pub IsBelow : String → Type 0
IsBelow tail = (tail ≡ "") ⊎ ((s : String) × (tail ≡ concat "/" s))

below-is_under : (p tail : String) → IsBelow tail → is_under (concat p tail) p ≡ true
below-is_under p tail (inl e) =
    let same : concat p tail ≡ p = ap (concat p) e ∙ concat-nil p in
    let k : str_eq (concat p tail) p ≡ true = (eq_iff (concat p tail) p).1 same in rw k refl
below-is_under p tail (inr (s, e)) =
    let k : starts_with (concat p tail) (concat p "/") ≡ true =
      subst (λ t. starts_with (concat p t) (concat p "/") ≡ true) (sym e) (starts_with-slash p s) in
    elim (Bool-cases (str_eq (concat p tail) p)) [
      | inl same ↦ rw same refl
      | inr other ↦ rw (other, k) refl
    ]

-- A path that only the last of the guards of `middleware` decides on.
abbrev IsGuarded : String → Type 0
IsGuarded s =
    (starts_with s "/api/auth" ≡ false)
    × (starts_with s "/dashboard" ≡ true)
    × (is_public_dashboard_path s ≡ false)

private_path :
    (s : String)
    → All (λ p. starts_with s p ≡ false) public_dashboard_paths
    → strip_prefix "/dashboard/event/booking/" s ≡ none
    → is_public_dashboard_path s ≡ false
unfolding is_public_dashboard_path
private_path s h none_there =
    let off = not-any s public_dashboard_paths h in rw (off, none_there) refl

Mem-All {ℓ} : {A : Type ℓ} (P : A → Type 0) (a : A) (l : List A) → All P l → Mem a l → P a
Mem-All P a [] h m = elim m [ ]
Mem-All P a (b ∷ l) (p, h) m = elim (Mem-cons a b l m) [
  | inl same ↦ subst P (sym same) p
  | inr later ↦ Mem-All P a l h later
]

IsGuarded-literal :
    (s : String)
    → starts_with s "/api/auth" ≡ false
    → starts_with s "/dashboard" ≡ true
    → All (λ p. starts_with s p ≡ false) public_dashboard_paths
    → strip_prefix "/dashboard/event/booking/" s ≡ none
    → IsGuarded s
IsGuarded-literal s api on h none_there = (api, on, private_path s h none_there)

restricted-IsGuarded :
    (path required tail : String)
    → Mem (path, required) role_restricted_paths
    → IsGuarded (concat path tail)
restricted-IsGuarded path required tail m =
    let each : All (λ (e : String × String). IsGuarded (concat e.0 tail)) role_restricted_paths = (
      IsGuarded-literal (concat "/dashboard/manager" tail) refl refl
          (refl, (refl, (refl, (refl, (refl, (refl, tt)))))) refl,
      (
        IsGuarded-literal (concat "/dashboard/users" tail) refl refl
            (refl, (refl, (refl, (refl, (refl, (refl, tt)))))) refl,
        (
          IsGuarded-literal (concat "/dashboard/admin" tail) refl refl
              (refl, (refl, (refl, (refl, (refl, (refl, tt)))))) refl,
          tt,
        ),
      ),
    ) in
    Mem-All (λ (e : String × String). IsGuarded (concat e.0 tail)) (path, required)
      role_restricted_paths each m

guard-next :
    (r : Request)
    → IsGuarded r.pathname
    → guard_page r ≡ next
    → (has_session r.session ≡ true)
      × Permits r.pathname (get_or_else r.role "") role_restricted_paths
unfolding guard_page
guard-next r (api, on, closed) h = elim (Bool-cases (has_session r.session)) [
  | inr out ↦ let k = rw (on, closed, out) at h in cc
  | inl live ↦
      elim (Bool-cases (has_role r.pathname (get_or_else r.role "") role_restricted_paths)) [
        | inl good ↦ (live, permits r.pathname (get_or_else r.role "") role_restricted_paths good)
        | inr bad ↦ let k = rw (on, closed, live, bad) at h in cc
      ]
]

-- A request for a page of one role, or below it, goes on to the page only with a session and with that
-- role: /dashboard/manager for "manager", /dashboard/users and /dashboard/admin for "admin".
pub restricted-next :
    (r : Request) (now : ℕ) (hits : Map Entry) (path required tail : String)
    → Mem (path, required) role_restricted_paths
    → IsBelow tail
    → r.pathname ≡ concat path tail
    → (middleware r now hits).1 ≡ next
    → (has_session r.session ≡ true) × (get_or_else r.role "" ≡ required)
unfolding middleware
restricted-next r now hits path required tail m below e h =
    let guarded = subst IsGuarded (sym e) (restricted-IsGuarded path required tail m) in
    let (live, fits) = guard-next r guarded (rw (guarded.0) at h) in
    let under = subst (λ s. is_under s path ≡ true) (sym e) (below-is_under path tail below) in
    (live, fits path required m under)
