-- ===== src/Startup/Covered.antt =====
-- What an allow-list admits, told without its tests.
use cicd_squabbler.Prelude.{
  ◌≡◌, refl, ◌↔◌, ◌⊎◌, ◌≢◌, true, false, Bool-cases, Option-cases, inl, inr, some, List, [], ◌∷◌,
  ◌++◌, Any, is_nil, arith, Str, codes, str_eq, str_eq_iff, first_part, starts_with, strip_suffix,
  ap, ◌∙◌, if_let, not, ◌&&◌, any, Bool,
}
use cicd_squabbler.Startup.{AllowList, pattern_covers, covers}

-- A pattern, up to its "@", is the name, or its owner's "owner/*", or a text that is not empty and
-- begins the name, with a "*" behind it.
abbrev pub Admits : Str → Str → Type 0
Admits owner_repo base =
    (base ≡ owner_repo)
    ⊎ ((base ≡ first_part b'/' owner_repo ++ codes "/*")
        ⊎ (prefix : Str) × ((base ≡ prefix ++ codes "*")
            × ((prefix ≢ []) × (rest : Str) × (owner_repo ≡ prefix ++ rest))))

-- GitHub's own owners are admitted as a whole, everything else by some pattern.
abbrev pub Covers : AllowList → Str → Type 0
Covers a owner_repo =
    ((a.github_owned_allowed ≡ true)
      × ((first_part b'/' owner_repo ≡ codes "actions")
          ⊎ (first_part b'/' owner_repo ≡ codes "github")))
    ⊎ Any (λ p. Admits owner_repo (first_part b'@' p)) a.patterns

begins : (p s : Str) → starts_with p s ≡ true → (rest : Str) × (s ≡ p ++ rest)
unfolding starts_with
begins [] s h = (s, refl)
begins (c ∷ p) [] h = cc h
begins (c ∷ p) (d ∷ s) h =
    let rest = begins p s (ground (arith, h)) in (rest.0, ground (arith, h, rest.1))

starts_with-append : (p rest : Str) → starts_with p (p ++ rest) ≡ true
unfolding starts_with
starts_with-append [] rest = refl
starts_with-append (c ∷ p) rest = ground (arith, starts_with-append p rest)

starred : (s p : Str) → strip_suffix (codes "*") s ≡ some p → s ≡ p ++ codes "*"
unfolding strip_suffix
starred [] p h = cc h
starred (c ∷ s) p h = elim (Bool-cases (str_eq (codes "*") (c ∷ s))) [
  | inl e ↦ let star = (str_eq_iff (codes "*") (c ∷ s)).0 e in ground (arith, star, rw e at h)
  | inr e ↦ elim (Option-cases (strip_suffix (codes "*") s)) [
    | inl k ↦ cc (rw (e, k) at h)
    | inr (q, k) ↦
        let whole : some (c ∷ q) ≡ some p = rw (e, k) at h in ground (arith, whole, starred s q k)
  ]
]

strip_suffix-append : (p : Str) → strip_suffix (codes "*") (p ++ codes "*") ≡ some p
unfolding strip_suffix str_eq
strip_suffix-append [] = refl
strip_suffix-append (c ∷ []) = ground arith
strip_suffix-append (c ∷ d ∷ p) = ground (arith, strip_suffix-append (d ∷ p))

-- A text that is not empty, begins the name, and has the "*" behind it.
abbrev Wild : Str → Str → Type 0
Wild owner_repo base =
    (prefix : Str) × ((base ≡ prefix ++ codes "*")
      × ((prefix ≢ []) × (rest : Str) × (owner_repo ≡ prefix ++ rest)))

wild : Str → Str → Bool
wild owner_repo base =
    if_let (strip_suffix (codes "*") base)
      (λ prefix. not (is_nil prefix) && starts_with prefix owner_repo) false

wild_iff : (owner_repo base : Str) → (wild owner_repo base ≡ true) ↔ Wild owner_repo base
unfolding wild
wild_iff owner_repo base = elim (Option-cases (strip_suffix (codes "*") base)) [
  | inl e ↦
      rw e (λ h. cc h, λ h. cc (e, ap (strip_suffix (codes "*")) h.1.0, strip_suffix-append h.0))
  | inr (prefix, e) ↦ rw e (
    λ h.
        let full : is_nil prefix ≡ false = ground (arith, h) in
        let begun : starts_with prefix owner_repo ≡ true = ground (arith, h) in
        (
          prefix,
          (
            starred base prefix e,
            (
              λ k. cc (full, ap is_nil k),
              (begins prefix owner_repo begun).0,
              (begins prefix owner_repo begun).1,
            ),
          ),
        ),
    λ h.
        let same : prefix ≡ h.0 =
          cc (e, ap (strip_suffix (codes "*")) h.1.0, strip_suffix-append h.0) in
        let begun : starts_with h.0 owner_repo ≡ true =
          ap (starts_with h.0) h.1.1.2 ∙ starts_with-append h.0 h.1.1.1 in
        rw same (rw begun (filled h.0 h.1.1.0)),
  )
]
  where
    filled : (p : Str) → p ≢ [] → (not (is_nil p) && true) ≡ true
    filled [] h = absurd (h refl)
    filled (c ∷ p) h = refl

pattern_covers-Admits_iff :
    (owner_repo base : Str)
    → (pattern_covers (first_part b'/' owner_repo) owner_repo base ≡ true) ↔ Admits owner_repo base
unfolding pattern_covers wild
pattern_covers-Admits_iff owner_repo base = ground (
  arith,
  str_eq_iff base owner_repo,
  str_eq_iff base (first_part b'/' owner_repo ++ codes "/*"),
  wild_iff owner_repo base,
)

any-pattern_covers_iff :
    (owner_repo : Str) (ps : List Str)
    → (any (λ p. pattern_covers (first_part b'/' owner_repo) owner_repo (first_part b'@' p)) ps
        ≡ true)
      ↔ Any (λ p. Admits owner_repo (first_part b'@' p)) ps
any-pattern_covers_iff owner_repo [] = ground arith
any-pattern_covers_iff owner_repo (p ∷ ps) = ground (
  arith,
  pattern_covers-Admits_iff owner_repo (first_part b'@' p),
  any-pattern_covers_iff owner_repo ps,
)

pub covers_iff :
    (a : AllowList) (owner_repo : Str) → (covers a owner_repo ≡ true) ↔ Covers a owner_repo
unfolding covers
covers_iff a owner_repo = ground (
  arith,
  str_eq_iff (first_part b'/' owner_repo) (codes "actions"),
  str_eq_iff (first_part b'/' owner_repo) (codes "github"),
  any-pattern_covers_iff owner_repo a.patterns,
)
