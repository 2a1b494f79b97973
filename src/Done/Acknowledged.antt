-- ===== src/Done/Acknowledged.antt =====
-- Which lines of a pull request's body acknowledge a red check.
use mathlib.Core.Path.{subst}
use mathlib.Core.List.{append-nil}
use cicd_squabbler.Prelude.{
  ap, ℕ, zero, suc, ◌-◌, ◌≡◌, refl, ◌⊎◌, ◌≢◌, inl, inr, true, false, [], ◌∷◌, ◌++◌, All, arith, Str,
  codes, is_some, length, if◌then◌else◌, strip_prefix, is_digit,
}
use cicd_squabbler.Done.Facts.{digit_after, digit_follows, has_issue_ref}

-- `pat` stands somewhere in the line with a digit right behind it.
abbrev pub RefIn : Str → Str → Type 0
RefIn pat [] = ⊥
RefIn pat (c ∷ s) = (digit_follows (strip_prefix pat (c ∷ s)) ≡ true) ⊎ RefIn pat s

digit_after_sound : (pat : Str) (skip : ℕ) (s : Str) → digit_after pat skip s ≡ true → RefIn pat s
unfolding digit_after
digit_after_sound pat skip [] h = cc
digit_after_sound pat (suc skip) (c ∷ s) h = inr (digit_after_sound pat skip s h)
digit_after_sound pat zero (c ∷ s) h = ground (
  arith,
  digit_after_sound pat (if is_some (strip_prefix pat (c ∷ s)) then length pat - 1 else 0) s,
)

-- A line is taken for an issue reference only where "#", "/issues/" or "/pull/" stands in it with a
-- digit right behind.
pub has_issue_ref_sound :
    (line : Str)
    → has_issue_ref line ≡ true
    → RefIn (codes "#") line ⊎ (RefIn (codes "/issues/") line ⊎ RefIn (codes "/pull/") line)
unfolding has_issue_ref is_digit
has_issue_ref_sound line h = ground (
  arith,
  digit_after_sound (codes "#") 0 line,
  digit_after_sound (codes "/issues/") 0 line,
  digit_after_sound (codes "/pull/") 0 line,
)

hash_complete : (s : Str) → RefIn (codes "#") s → digit_after (codes "#") 0 s ≡ true
unfolding digit_after
hash_complete [] h = absurd h
hash_complete (c ∷ s) h = ground (arith, hash_complete s)

module _ (p : ℕ) (pat : Str) where
  digit_after-plain :
      (s rest : Str)
      → All (λ c. c ≢ p) s
      → digit_after (p ∷ pat) 0 (s ++ rest) ≡ digit_after (p ∷ pat) 0 rest
  unfolding digit_after strip_prefix
  digit_after-plain [] rest h = refl
  digit_after-plain (c ∷ s) rest h = ground (arith, digit_after-plain s rest)

All-ne :
    (p : ℕ) (s : Str) → is_digit p ≡ false → All (λ c. is_digit c ≡ true) s → All (λ c. c ≢ p) s
All-ne p [] d h = tt
All-ne p (c ∷ s) d h = ((λ e. cc (ap is_digit e, h.0, d)), All-ne p s d h.1)

digits-no-ref :
    (p : ℕ) (pat n : Str)
    → is_digit p ≡ false
    → All (λ c. is_digit c ≡ true) n
    → digit_after (p ∷ pat) 0 n ≡ false
unfolding digit_after
digits-no-ref p pat n d h =
    subst (λ s. digit_after (p ∷ pat) 0 s ≡ false) (append-nil n)
      (digit_after-plain p pat n [] (All-ne p n d h))

tail-no-ref :
    (n : Str)
    → All (λ c. is_digit c ≡ true) n
    → digit_after (codes "/issues/") 0 (codes "/issues/issues/" ++ n) ≡ false
unfolding digit_after strip_prefix is_digit
tail-no-ref [] h = refl
tail-no-ref (d ∷ n) h = ground (arith, digits-no-ref b'/' (codes "issues/") (d ∷ n) refl h)

tail-no-pull :
    (n : Str)
    → All (λ c. is_digit c ≡ true) n
    → digit_after (codes "/pull/") 0 (codes "/issues/issues/" ++ n) ≡ false
unfolding digit_after strip_prefix is_digit
tail-no-pull [] h = refl
tail-no-pull (d ∷ n) h = ground (arith, digits-no-ref b'/' (codes "pull/") (d ∷ n) refl h)

RefIn-append : (pat s rest : Str) → RefIn pat rest → RefIn pat (s ++ rest)
RefIn-append pat [] rest h = h
RefIn-append pat (c ∷ s) rest h = inr (RefIn-append pat s rest h)

tail-RefIn :
    (n : Str)
    → All (λ c. is_digit c ≡ true) n
    → n ≢ []
    → RefIn (codes "/issues/") (codes "/issues/issues/" ++ n)
unfolding strip_prefix
tail-RefIn [] h ne = absurd (ne refl)
tail-RefIn (d ∷ n) h ne = inr (inr (inr (inr (inr (inr (inr (inl h.0)))))))

split-All :
    (s : Str) → All (λ c. (c ≢ b'/') × (c ≢ b'#')) s → All (λ c. c ≢ b'/') s × All (λ c. c ≢ b'#') s
split-All [] h = (tt, tt)
split-All (c ∷ s) h = let (l, r) = split-All s h.1 in ((h.0.0, l), (h.0.1, r))

-- A link to any issue of a repository named `issues`, behind a text `s` with no "/" and no "#", is
-- not taken for an issue reference, though "/issues/" stands in it with the issue's number right
-- behind: the match that the repository's name begins overlaps the one that the number needs.
pub has_issue_ref-issues_link :
    (s n : Str)
    → All (λ c. (c ≢ b'/') × (c ≢ b'#')) s
    → All (λ c. is_digit c ≡ true) n
    → n ≢ []
    → (has_issue_ref (s ++ (codes "/issues/issues/" ++ n)) ≡ false)
      × RefIn (codes "/issues/") (s ++ (codes "/issues/issues/" ++ n))
unfolding has_issue_ref is_digit
has_issue_ref-issues_link s n o h ne =
    let (slash, hash) = split-All s o in
    let rest : Str = codes "/issues/issues/" ++ n in
    (
      cc (
        digit_after-plain b'#' [] s rest hash,
        digit_after-plain b'#' [] (codes "/issues/issues/") n (omega arith),
        digits-no-ref b'#' [] n refl h,
        digit_after-plain b'/' (codes "issues/") s rest slash,
        tail-no-ref n h,
        digit_after-plain b'/' (codes "pull/") s rest slash,
        tail-no-pull n h,
      ),
      RefIn-append (codes "/issues/") s _ (tail-RefIn n h ne),
    )
