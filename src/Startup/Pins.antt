-- ===== src/Startup/Pins.antt =====
-- Pins and the parts of a coordinate's text: what splitting a printed text gives back.
use cicd_squabbler.Prelude.{
  ℕ, zero, suc, ◌≡◌, refl, ◌≢◌, inl, inr, true, none, some, [], ◌∷◌, ◌++◌, Option-cases, all, All,
  arith, Str, rsplit_once, splitn, str_len, utf8_width, is_digit, is_hexdigit, to_lower,
  to_ascii_lowercase,
}
use cicd_squabbler.Chains.{Pin, pin_parse, pin_str}

rsplit_once-free : (sep : ℕ) (t : Str) → All (λ c. c ≢ sep) t → rsplit_once sep t ≡ none
unfolding rsplit_once
rsplit_once-free sep [] h = refl
rsplit_once-free sep (c ∷ t) h = rw (rsplit_once-free sep t h.1) (ground arith)

-- The last separator of `s ++ (sep ∷ t)` is the one before `t`.
pub rsplit_once-append :
    (sep : ℕ) (s t : Str) → All (λ c. c ≢ sep) t → rsplit_once sep (s ++ (sep ∷ t)) ≡ some (s, t)
unfolding rsplit_once
rsplit_once-append sep [] t h = rw (rsplit_once-free sep t h) (ground arith)
rsplit_once-append sep (c ∷ s) t h = rw (rsplit_once-append sep s t h) refl

rsplit_once-none : (sep : ℕ) (s : Str) → rsplit_once sep s ≡ none → All (λ c. c ≢ sep) s
unfolding rsplit_once
rsplit_once-none sep [] e = ground arith
rsplit_once-none sep (c ∷ s) e = ground (arith, rsplit_once-none sep s)

pub rsplit_once-behind :
    (sep : ℕ) (s : Str) (p : Str × Str) → rsplit_once sep s ≡ some p → All (λ c. c ≢ sep) p.1
unfolding rsplit_once
rsplit_once-behind sep [] p e = cc
rsplit_once-behind sep (c ∷ s) p e = elim (Option-cases (rsplit_once sep s)) [
  | inl absent ↦ ground (arith, rsplit_once-none sep s absent, absent)
  | inr (q, found) ↦ ground (arith, rsplit_once-behind sep s q found, found)
]

pub splitn-append :
    (n sep : ℕ) (s t : Str)
    → All (λ c. c ≢ sep) s
    → splitn (suc (suc n)) sep (s ++ (sep ∷ t)) ≡ s ∷ splitn (suc n) sep t
unfolding splitn
splitn-append n sep [] t h = ground arith
splitn-append n sep (c ∷ s) t h = ground (arith, splitn-append n sep s t h.1)

pub splitn-free : (n sep : ℕ) (s : Str) → All (λ c. c ≢ sep) s → splitn (suc n) sep s ≡ s ∷ []
unfolding splitn
splitn-free n sep [] h = refl
splitn-free zero sep (c ∷ s) h = refl
splitn-free (suc n) sep (c ∷ s) h = ground (arith, splitn-free (suc n) sep s h.1)

pub splitn-one : (sep : ℕ) (s : Str) → splitn 1 sep s ≡ s ∷ []
unfolding splitn
splitn-one sep [] = refl
splitn-one sep (c ∷ s) = refl

is_hexdigit-to_lower :
    (c : ℕ)
    → is_hexdigit c ≡ true
    → (is_hexdigit (to_lower c) ≡ true)
      × ((utf8_width (to_lower c) ≡ utf8_width c) × (to_lower (to_lower c) ≡ to_lower c))
unfolding is_hexdigit is_digit to_lower utf8_width
is_hexdigit-to_lower c h = ground arith

is_hexdigit-at : (c : ℕ) → is_hexdigit c ≡ true → c ≢ b'@'
unfolding is_hexdigit is_digit
is_hexdigit-at c h = ground arith

hex-lemmas :
    (s : Str)
    → all is_hexdigit s ≡ true
    → (all is_hexdigit (to_ascii_lowercase s) ≡ true)
      × ((str_len (to_ascii_lowercase s) ≡ str_len s)
          × ((to_ascii_lowercase (to_ascii_lowercase s) ≡ to_ascii_lowercase s)
              × All (λ c. c ≢ b'@') (to_ascii_lowercase s)))
unfolding to_ascii_lowercase str_len
hex-lemmas [] h = ground arith
hex-lemmas (c ∷ s) h =
    ground (arith, hex-lemmas s, is_hexdigit-to_lower c, is_hexdigit-at (to_lower c))

str_len-nil : str_len [] ≡ 0
unfolding str_len
str_len-nil = refl

-- A pin's text is not empty, has no "@" and is parsed back to the pin.
abbrev pub IsPin : Pin → Type 0
IsPin p = (pin_str p ≢ []) × (All (λ c. c ≢ b'@') (pin_str p) × (pin_parse (pin_str p) ≡ p))

pub pin_parse-IsPin :
    (reference : Str) → reference ≢ [] → All (λ c. c ≢ b'@') reference → IsPin (pin_parse reference)
unfolding pin_parse pin_str
pin_parse-IsPin reference ne h = ground (arith, hex-lemmas reference, str_len-nil)
