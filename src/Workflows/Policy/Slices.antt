-- ===== src/Workflows/Policy/Slices.antt =====
-- Where the scan for retired descriptile policy panics, and where it does not.
use cicd_squabbler.Prelude.{
  ℕ, ◌≡◌, refl, ◌≢◌, Bool, true, false, ◌&&◌, leb, Option, none, some, List, [], ◌∷◌, All, arith,
  Str, cons_head, trim, trim_start, trim_end, utf8_width, is_whitespace, is_nil, lines, slice_from,
  if◌then◌else◌, ap, ◌∙◌,
}
use cicd_squabbler.Workflows.Policy.{
  leading, BlockState, outside, LineOutcome, retired, goes_on, policy_line, policy_lines,
  has_retired_descriptile_policy,
}

-- The white space at the start of a line is ASCII.
abbrev pub ascii_indent : Str → Bool
ascii_indent [] = true
ascii_indent (c ∷ s) = if is_whitespace c then leb c 127 && ascii_indent s else true

slice_from-leading :
    (l : Str) → ascii_indent l ≡ true → slice_from (leading l) l ≡ some (trim_start l)
unfolding slice_from leading trim_start utf8_width
slice_from-leading [] h = refl
slice_from-leading (c ∷ l) h = ground (arith, slice_from-leading l)

policy_line-some :
    (yaml : Str → Option Str) (l : Str) (state : BlockState)
    → ascii_indent l ≡ true
    → policy_line yaml l state ≢ none
unfolding policy_line
policy_line-some yaml l state h = ground (arith, slice_from-leading l h)

policy_lines-some :
    (yaml : Str → Option Str) (ls : List Str) (state : BlockState)
    → All (λ l. ascii_indent l ≡ true) ls
    → policy_lines yaml ls state ≢ none
unfolding policy_lines
policy_lines-some yaml [] state h = λ e. cc e
policy_lines-some yaml (l ∷ ls) state h =
    go (policy_line yaml l state) (policy_line-some yaml l state h.0)
      (λ next. policy_lines-some yaml ls next h.1)
  where
    go :
        (o : Option LineOutcome)
        → o ≢ none
        → ((next : BlockState) → policy_lines yaml ls next ≢ none)
        → (elim o [
          | none ↦ none
          | some retired ↦ some true
          | some (goes_on next) ↦ policy_lines yaml ls next
        ])
          ≢ none
    go none n k = absurd (n refl)
    go (some retired) n k = λ e. cc e
    go (some (goes_on next)) n k = k next

-- Where every line is indented by ASCII white space, the scan answers.
pub has_retired_descriptile_policy-some :
    (yaml : Str → Option Str) (text : Str)
    → All (λ l. ascii_indent l ≡ true) (lines text)
    → has_retired_descriptile_policy yaml text ≢ none
unfolding has_retired_descriptile_policy
has_retired_descriptile_policy-some yaml text h = policy_lines-some yaml (lines text) outside h

lines-cons_head :
    (c : ℕ) (s : Str) → is_whitespace c ≡ false → lines (c ∷ s) ≡ cons_head c (lines s)
unfolding lines is_whitespace
lines-cons_head c s h = ground arith

is_nil-trim : (c : ℕ) (s : Str) → is_whitespace c ≡ false → is_nil (trim (c ∷ s)) ≡ false
unfolding trim trim_start trim_end
is_nil-trim c s h = ground arith

trim-no_break : (s : Str) → trim (0xa0 ∷ s) ≡ trim s
unfolding trim trim_start is_whitespace
trim-no_break s = refl

-- One character is counted, but the first one ends at the second byte.
slice_from-no_break :
    (c : ℕ) (s : Str)
    → is_whitespace c ≡ false
    → slice_from (leading (0xa0 ∷ c ∷ s)) (0xa0 ∷ c ∷ s) ≡ none
unfolding slice_from leading utf8_width is_whitespace
slice_from-no_break c s h = ground arith

policy_line-no_break :
    (yaml : Str → Option Str) (c : ℕ) (s : Str) (state : BlockState)
    → is_whitespace c ≡ false
    → policy_line yaml (0xa0 ∷ c ∷ s) state ≡ none
unfolding policy_line
policy_line-no_break yaml c s state h =
    rw (trim-no_break (c ∷ s), is_nil-trim c s h, slice_from-no_break c s h) refl

policy_lines-no_break :
    (yaml : Str → Option Str) (c : ℕ) (ls : List Str)
    → is_whitespace c ≡ false
    → policy_lines yaml (cons_head 0xa0 (cons_head c ls)) outside ≡ none
unfolding policy_lines
policy_lines-no_break yaml c [] h = rw (policy_line-no_break yaml c [] outside h, policy_lines) refl
policy_lines-no_break yaml c (l ∷ ls) h =
    rw (policy_line-no_break yaml c l outside h, policy_lines) refl

lines-no_break : (s : Str) → lines (0xa0 ∷ s) ≡ cons_head 0xa0 (lines s)
unfolding lines
lines-no_break s = refl

-- On a text whose first line is indented by one no-break space and not blank, the scan panics.
pub has_retired_descriptile_policy-panic :
    (yaml : Str → Option Str) (c : ℕ) (rest : Str)
    → is_whitespace c ≡ false
    → has_retired_descriptile_policy yaml (0xa0 ∷ c ∷ rest) ≡ none
unfolding has_retired_descriptile_policy
has_retired_descriptile_policy-panic yaml c rest h =
    ap (λ ls. policy_lines yaml ls outside)
      (lines-no_break (c ∷ rest) ∙ ap (cons_head 0xa0) (lines-cons_head c rest h))
    ∙ policy_lines-no_break yaml c (lines rest) h
