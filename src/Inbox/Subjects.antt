-- ===== src/Inbox/Subjects.antt =====
-- The subjects that `from_api_url` reads, and the threads that are cleared.
use cicd_squabbler.Prelude.{
  ℕ, zero, suc, ◌+◌, ◌-◌, ◌*◌, ◌/◌, ◌%◌, ◌<◌, ◌≤◌, ◌≡◌, refl, ◌↔◌, ◌⊎◌, ◌≢◌, inl, inr, Bool-cases,
  true, ◌==◌, Option, Option-cases, none, some, List, [], ◌∷◌, ◌++◌, All, arith, Str, codes,
  str_eq_iff, strip_prefix, split, is_digit, decimal_from, decimal,
}
use mathlib.Core.Path.{sym, subst}
use cicd_squabbler.Inbox.{
  Thread, u64_max, parse_digits, parse_u64, from_parts, from_api_url, SubjectState, merged, closed,
  clears, subject_of, decide, decide_state,
}

-- The four parts of an address: an owner, a name, the kind of the subject and its number.
abbrev pub IsParts : List Str → Type 0
IsParts (owner ∷ name ∷ kind ∷ number ∷ []) =
    (owner ≢ [])
    × ((name ≢ [])
        × (((kind ≡ codes "pulls") ⊎ (kind ≡ codes "issues")) × (parse_u64 number ≢ none)))
IsParts _ = ⊥

-- The address of a pull request or an issue in GitHub's API.
abbrev pub IsAddress : Str → Type 0
IsAddress url =
    (path : Str) × ((url ≡ codes "https://api.github.com/repos/" ++ path)
      × IsParts (split b'/' path))

abbrev pub HasAddress : Option Str → Type 0
HasAddress none = ⊥
HasAddress (some url) = IsAddress url

from_parts_iff : (parts : List Str) → (from_parts parts ≢ none) ↔ IsParts parts
unfolding from_parts
from_parts_iff [] = ground arith
from_parts_iff (a ∷ []) = ground arith
from_parts_iff (a ∷ b ∷ []) = ground arith
from_parts_iff (a ∷ b ∷ c ∷ []) = ground arith
from_parts_iff (a ∷ b ∷ c ∷ d ∷ []) =
    ground (arith, str_eq_iff c (codes "pulls"), str_eq_iff c (codes "issues"))
from_parts_iff (a ∷ b ∷ c ∷ d ∷ e ∷ rest) = ground arith

strip_prefix-some_iff : (p s rest : Str) → (strip_prefix p s ≡ some rest) ↔ (s ≡ p ++ rest)
unfolding strip_prefix
strip_prefix-some_iff [] s rest = ground arith
strip_prefix-some_iff (c ∷ p) [] rest = ground arith
strip_prefix-some_iff (c ∷ p) (d ∷ s) rest = ground (arith, strip_prefix-some_iff p s rest)

from_api_url_iff : (url : Str) → (from_api_url url ≢ none) ↔ IsAddress url
unfolding from_api_url
from_api_url_iff url =
    let base = codes "https://api.github.com/repos/" in
    elim (Option-cases (strip_prefix base url)) [
      | inl e ↦
          rw e (λ h. absurd (h refl), λ h. cc (e, (strip_prefix-some_iff base url h.0).1 h.1.0))
      | inr (path, e) ↦ rw e (
        λ h. (
          path,
          ((strip_prefix-some_iff base url path).0 e, (from_parts_iff (split b'/' path)).0 h),
        ),
        λ h.
            let same : h.0 ≡ path = cc (e, (strip_prefix-some_iff base url h.0).1 h.1.0) in
            (from_parts_iff (split b'/' path)).1 (subst (λ p. IsParts (split b'/' p)) same h.1.1),
      )
    ]

subject_of_iff :
    (t : Thread)
    → (subject_of t ≢ none) ↔ (
        ((t.subject_type ≡ codes "PullRequest") ⊎ (t.subject_type ≡ codes "Issue"))
        × HasAddress t.subject_url)
unfolding subject_of
subject_of_iff t =
    let pull = str_eq_iff t.subject_type (codes "PullRequest") in
    let issue = str_eq_iff t.subject_type (codes "Issue") in
    elim (Option-cases t.subject_url) [
      | inl e ↦ rw e (ground (arith, pull, issue))
      | inr (url, e) ↦ rw e (ground (arith, pull, issue, from_api_url_iff url))
    ]

-- A thread is cleared exactly when it is about a pull request or an issue, its URL is the address of
-- one in GitHub's API with a number that fits 64 bits, and the state of the subject was looked up and
-- is merged or closed.
pub decide-clears_iff :
    (t : Thread) (state : Option SubjectState)
    → (clears (decide t state) ≡ true) ↔ (
        ((t.subject_type ≡ codes "PullRequest") ⊎ (t.subject_type ≡ codes "Issue"))
        × (HasAddress t.subject_url × ((state ≡ some merged) ⊎ (state ≡ some closed))))
unfolding clears decide decide_state
decide-clears_iff t state = ground (arith, subject_of_iff t)

parse_digits-step :
    (n : ℕ) (acc : Str)
    → n ≤ u64_max
    → parse_digits (n / 10) ((b'0' + n % 10) ∷ acc) ≡ parse_digits n acc
unfolding parse_digits is_digit
parse_digits-step n acc k =
    let value : (n / 10) * 10 + ((b'0' + n % 10) - b'0') ≡ n = omega arith in
    rw value (ground arith)

decimal_from-parse :
    (fuel n : ℕ) (acc : Str)
    → n < fuel
    → n ≤ u64_max
    → parse_digits 0 (decimal_from fuel n acc) ≡ parse_digits n acc
unfolding decimal_from
decimal_from-parse zero n acc h k = ground arith
decimal_from-parse (suc fuel) n acc h k =
    let step = parse_digits-step n acc k in
    let more = decimal_from-parse fuel (n / 10) ((b'0' + n % 10) ∷ acc) in
    ground (arith, step, more)

abbrev IsDigits : Str → Type 0
IsDigits s = All (λ c. is_digit c ≡ true) s

is_digit-mod : (n : ℕ) → is_digit (b'0' + n % 10) ≡ true
unfolding is_digit
is_digit-mod n = ground arith

decimal_from-IsDigits : (fuel n : ℕ) (acc : Str) → IsDigits acc → IsDigits (decimal_from fuel n acc)
unfolding decimal_from
decimal_from-IsDigits zero n acc h = h
decimal_from-IsDigits (suc fuel) n acc h = elim (Bool-cases (n / 10 == 0)) [
  | inl last ↦ rw last (is_digit-mod n, h)
  | inr more ↦ rw more (decimal_from-IsDigits fuel (n / 10) _ (is_digit-mod n, h))
]

decimal_from-cons : (fuel n c : ℕ) (acc : Str) → decimal_from fuel n (c ∷ acc) ≢ []
unfolding decimal_from
decimal_from-cons zero n c acc = λ e. cc
decimal_from-cons (suc fuel) n c acc =
    ground (arith, decimal_from-cons fuel (n / 10) (b'0' + n % 10) (c ∷ acc))

decimal_from-ne : (fuel n : ℕ) → n < fuel → decimal_from fuel n [] ≢ []
unfolding decimal_from
decimal_from-ne zero n h = ground arith
decimal_from-ne (suc fuel) n h = ground (arith, decimal_from-cons fuel (n / 10) (b'0' + n % 10) [])

parse_u64-digits : (s : Str) → s ≢ [] → IsDigits s → parse_u64 s ≡ parse_digits 0 s
unfolding parse_u64 is_digit
parse_u64-digits [] ne h = absurd (ne refl)
parse_u64-digits (c ∷ s) ne h = ground arith

parse_u64-decimal : (n : ℕ) → n ≤ u64_max → parse_u64 (decimal n) ≡ some n
unfolding decimal parse_digits
parse_u64-decimal n h =
    rw
      (
        parse_u64-digits (decimal n) (decimal_from-ne (n + 1) n (omega arith))
            (decimal_from-IsDigits (n + 1) n [] tt),
        decimal_from-parse (n + 1) n [] (omega arith) h,
      )
      refl

split-append :
    (sep : ℕ) (s t : Str) → All (λ c. c ≢ sep) s → split sep (s ++ (sep ∷ t)) ≡ s ∷ split sep t
unfolding split
split-append sep [] t h = ground arith
split-append sep (c ∷ s) t h = ground (arith, split-append sep s t h.1)

split-digits : (s : Str) → IsDigits s → split b'/' s ≡ s ∷ []
unfolding split is_digit
split-digits [] h = refl
split-digits (c ∷ s) h = ground (arith, split-digits s h.1)

strip_prefix-append : (p s : Str) → strip_prefix p (p ++ s) ≡ some s
unfolding strip_prefix
strip_prefix-append [] s = refl
strip_prefix-append (c ∷ p) s = ground (arith, strip_prefix-append p s)

kind-free :
    (kind : Str) → (kind ≡ codes "pulls") ⊎ (kind ≡ codes "issues") → All (λ c. c ≢ b'/') kind
kind-free kind (inl e) = subst (All (λ c. c ≢ b'/')) (sym e) pulls
  where
    pulls : All (λ c. c ≢ b'/') (codes "pulls")
    pulls = ground arith
kind-free kind (inr e) = subst (All (λ c. c ≢ b'/')) (sym e) issues
  where
    issues : All (λ c. c ≢ b'/') (codes "issues")
    issues = ground arith

decimal-IsDigits : (n : ℕ) → IsDigits (decimal n)
unfolding decimal
decimal-IsDigits n = decimal_from-IsDigits (n + 1) n [] tt

from_parts-decimal :
    (owner name kind : Str) (n : ℕ)
    → owner ≢ []
    → name ≢ []
    → (kind ≡ codes "pulls") ⊎ (kind ≡ codes "issues")
    → n ≤ u64_max
    → from_parts (owner ∷ (name ∷ (kind ∷ (decimal n ∷ []))))
      ≡ some (record { repo = record { slug = owner ++ (codes "/" ++ name) }; number = n })
unfolding from_parts
from_parts-decimal owner name kind n h k kinds bound =
    rw (parse_u64-decimal n bound)
      (ground (arith, str_eq_iff kind (codes "pulls"), str_eq_iff kind (codes "issues")))

-- The API URL of a pull request or an issue is read back: the repository and the number are those
-- that it was printed from, where neither name is empty or has a "/", and the number fits a `u64`.
pub from_api_url-decimal :
    (owner name kind : Str) (n : ℕ)
    → owner ≢ []
    → name ≢ []
    → All (λ c. c ≢ b'/') owner
    → All (λ c. c ≢ b'/') name
    → (kind ≡ codes "pulls") ⊎ (kind ≡ codes "issues")
    → n ≤ u64_max
    → from_api_url (
        codes "https://api.github.com/repos/"
        ++ (owner ++ (codes "/" ++ (name ++ (codes "/" ++ (kind ++ (codes "/" ++ decimal n)))))))
      ≡ some (record { repo = record { slug = owner ++ (codes "/" ++ name) }; number = n })
unfolding from_api_url
from_api_url-decimal owner name kind n h k f g kinds bound =
    rw
      (
        strip_prefix-append (codes "https://api.github.com/repos/") _,
        split-append b'/' owner _ f,
        split-append b'/' name _ g,
        split-append b'/' kind (decimal n) (kind-free kind kinds),
        split-digits (decimal n) (decimal-IsDigits n),
      )
      (from_parts-decimal owner name kind n h k kinds bound)
