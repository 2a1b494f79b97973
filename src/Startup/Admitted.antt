-- ===== src/Startup/Admitted.antt =====
-- What adding the pattern that `missing_pattern` names does to an allow-list.
use cicd_squabbler.Prelude.{
  ℕ, ◌≡◌, refl, ◌↔◌, ◌⊎◌, ◌≢◌, true, none, some, [], ◌∷◌, ◌++◌, All, arith, Str, codes, str_eq,
  str_eq_iff, first_part, strip_suffix,
}
use mathlib.Core.Path.{subst}
use cicd_squabbler.Startup.{AllowList, pattern_covers, covers, missing_pattern}

pub first_part-append :
    (sep : ℕ) (s t : Str) → All (λ c. c ≢ sep) s → first_part sep (s ++ (sep ∷ t)) ≡ s
unfolding first_part
first_part-append sep [] t h = ground arith
first_part-append sep (c ∷ s) t h = ground (arith, first_part-append sep s t h.1)

strip_suffix-star : (s : Str) → All (λ c. c ≢ b'*') s → strip_suffix (codes "*") s ≡ none
unfolding strip_suffix str_eq
strip_suffix-star [] h = refl
strip_suffix-star (c ∷ s) h = ground (arith, strip_suffix-star s h.1)

All-tail : (P : ℕ → Type 0) (s t : Str) → All P (s ++ t) → All P t
All-tail P [] t h = h
All-tail P (c ∷ s) t h = All-tail P s t h.1

not-owner_wide : (s owner : Str) → All (λ c. c ≢ b'*') s → s ≢ owner ++ codes "/*"
not-owner_wide s owner h e =
    (All-tail (λ c. c ≢ b'*') owner (codes "/*") (subst (All (λ c. c ≢ b'*')) e h)).1.0 refl

-- `r` stands for a name without "@" and "*".
pattern_covers_iff :
    (owner r other : Str)
    → All (λ c. c ≢ b'*') r
    → (pattern_covers owner other r ≡ true) ↔ (other ≡ r)
unfolding pattern_covers
pattern_covers_iff owner r other h = rw (strip_suffix-star r h) (
    ground
      (arith, str_eq_iff r other, str_eq_iff r (owner ++ codes "/*"), not-owner_wide r owner h))

-- Where `r` has no "@" and no "*", adding the pattern that `missing_pattern` names for `r` admits
-- `r`, keeps what was admitted, and admits nothing else.
pub missing_pattern-minimal :
    (a : AllowList) (r p other : Str)
    → All (λ c. c ≢ b'@') r
    → All (λ c. c ≢ b'*') r
    → missing_pattern a r ≡ some p
    → (covers (record a { patterns = p ∷ a.patterns }) other ≡ true)
      ↔ ((covers a other ≡ true) ⊎ (other ≡ r))
unfolding missing_pattern covers
missing_pattern-minimal a r p other h k e = ground (
  arith,
  first_part-append b'@' r (codes "*") h,
  pattern_covers_iff (first_part b'/' other) r other k,
)
