-- ===== src/Fight/Apply/Rerun.antt =====
-- A text that `remove_on_paths` wrote, read again, and a second run of the moves.
use cicd_squabbler.Prelude.{
  ==_iff, Bool-cases, ℕ, ◌≡◌, refl, Bool, true, false, not, ◌&&◌, ◌==◌, Option, none, List, [], ◌∷◌,
  ◌++◌, inl, inr, All, arith, Str, codes, cons_head, starts_with, str_eq, trim, trim_start,
  trim_end, indent_of, utf8_width, is_whitespace, is_nil, lines, join, ends_with_char,
  if◌then◌else◌, ap, sym, ◌∙◌,
}
use mathlib.Core.List.{append-nil, append_assoc}
use cicd_squabbler.Workflows.Filter.{is_jobs_line, is_paths_line, has_filter, has_path_filter}
use cicd_squabbler.Fight.Apply.{line_fate, strip_lines, skip_from, remove_on_paths}
use cicd_squabbler.Fight.Apply.Filters.{
  strip_lines-has_filter, has_filter-strip_lines, fate_cases, is_skip, is_drop, is_keep,
}

-- A line holds no line feed.
abbrev NoBreak : Str → Type 0
NoBreak s = All (λ c. (c == 10) ≡ false) s

drop_cr : Str → Str
drop_cr [] = []
drop_cr (c ∷ s) = let rest = drop_cr s in if is_nil s && c == 13 then [] else c ∷ rest

lines-line : (s u : Str) → NoBreak s → lines (s ++ 10 ∷ u) ≡ drop_cr s ∷ lines u
unfolding lines drop_cr starts_with
lines-line [] u h = refl
lines-line (c ∷ []) u h = rw h.0 (ground arith)
lines-line (c ∷ d ∷ s) u h = rw (h.0, h.1.0) (ground (arith, lines-line (d ∷ s) u h.1))

lines-last : (s : Str) → NoBreak s → is_nil s ≡ false → lines s ≡ s ∷ []
unfolding lines starts_with
lines-last [] h k = cc k
lines-last (c ∷ []) h k = rw h.0 (ground arith)
lines-last (c ∷ d ∷ s) h k = ground (arith, h.0, h.1.0, lines-last (d ∷ s) h.1 refl)

trim_end-drop_cr : (s : Str) → trim_end (drop_cr s) ≡ trim_end s
unfolding trim_end drop_cr is_whitespace
trim_end-drop_cr [] = refl
trim_end-drop_cr (c ∷ []) = ground arith
trim_end-drop_cr (c ∷ d ∷ s) = rw (trim_end-drop_cr (d ∷ s), trim_end) refl

trim_cons :
    (c : ℕ) (s : Str) → trim (c ∷ s) ≡ (if is_whitespace c then trim s else trim_end (c ∷ s))
unfolding trim trim_start
trim_cons c s = ground arith

drop_cr_cons : (c d : ℕ) (s : Str) → drop_cr (c ∷ d ∷ s) ≡ c ∷ drop_cr (d ∷ s)
unfolding drop_cr
drop_cr_cons c d s = refl

trim-drop_cr_one : (c : ℕ) → trim (drop_cr (c ∷ [])) ≡ trim (c ∷ [])
unfolding trim trim_start trim_end drop_cr is_whitespace
trim-drop_cr_one c = elim (Bool-cases (c == 13)) [
  | inl e ↦ rw (e, (==_iff c 13).0 e) refl
  | inr e ↦ rw e refl
]

trim-drop_cr_nil : trim (drop_cr []) ≡ trim []
unfolding drop_cr
trim-drop_cr_nil = refl

trim-drop_cr : (s : Str) → trim (drop_cr s) ≡ trim s
trim-drop_cr [] = trim-drop_cr_nil
trim-drop_cr (c ∷ []) = trim-drop_cr_one c
trim-drop_cr (c ∷ d ∷ s) =
    rw
      (
        drop_cr_cons c d s,
        trim_cons c (drop_cr (d ∷ s)),
        trim_cons c (d ∷ s),
        trim-drop_cr (d ∷ s),
        sym (drop_cr_cons c d s),
        trim_end-drop_cr (c ∷ d ∷ s),
      )
      refl

indent_cons : (c : ℕ) (s : Str) → (indent_of (c ∷ s) == 0) ≡ not (is_whitespace c)
unfolding indent_of utf8_width
indent_cons c s = ground arith

is_jobs_line_nil : is_jobs_line (drop_cr []) ≡ is_jobs_line []
unfolding drop_cr
is_jobs_line_nil = refl

is_jobs_line_one : (c : ℕ) → is_jobs_line (drop_cr (c ∷ [])) ≡ is_jobs_line (c ∷ [])
unfolding is_jobs_line drop_cr trim trim_start trim_end starts_with
is_jobs_line_one c = elim (Bool-cases (c == 13)) [
  | inl e ↦ rw (e, (==_iff c 13).0 e) refl
  | inr e ↦ rw e refl
]

is_jobs_line-drop_cr : (s : Str) → is_jobs_line (drop_cr s) ≡ is_jobs_line s
unfolding is_jobs_line
is_jobs_line-drop_cr [] = is_jobs_line_nil
is_jobs_line-drop_cr (c ∷ []) = is_jobs_line_one c
is_jobs_line-drop_cr (c ∷ d ∷ s) =
    rw
      (
        trim-drop_cr (c ∷ d ∷ s),
        drop_cr_cons c d s,
        indent_cons c (drop_cr (d ∷ s)),
        indent_cons c (d ∷ s),
      )
      refl

is_paths_line-drop_cr : (s : Str) → is_paths_line (drop_cr s) ≡ is_paths_line s
unfolding is_paths_line
is_paths_line-drop_cr s = rw (trim-drop_cr s) refl

has_filter-drop_cr :
    (s : Str) (ls ms : List Str) (b : Bool)
    → ((d : Bool) → has_filter ls d ≡ has_filter ms d)
    → has_filter (drop_cr s ∷ ls) b ≡ has_filter (s ∷ ms) b
unfolding has_filter
has_filter-drop_cr s ls ms b h =
    rw (is_jobs_line-drop_cr s, is_paths_line-drop_cr s, h (b && not (is_jobs_line s))) refl

has_filter_blank : (b : Bool) → has_filter ([] ∷ []) b ≡ false
unfolding has_filter is_jobs_line is_paths_line trim trim_start trim_end starts_with str_eq
has_filter_blank true = refl
has_filter_blank false = refl

has_filter_nil : (b : Bool) → has_filter [] b ≡ false
unfolding has_filter
has_filter_nil b = refl

lines_nil : lines [] ≡ []
unfolding lines
lines_nil = refl

-- The end of the text, behind the last line.
abbrev ending : Bool → Str
ending newline = if newline then codes "\n" else []

has_filter-last :
    (k : Str) (newline b : Bool)
    → NoBreak k
    → has_filter (lines (k ++ ending newline)) b ≡ has_filter (k ∷ []) b
has_filter-last k true b h =
    rw (lines-line k [] h) (has_filter-drop_cr k (lines []) [] b (λ d. rw lines_nil refl))
has_filter-last [] false b h =
    ap (λ ls. has_filter ls b) lines_nil ∙ (has_filter_nil b ∙ sym (has_filter_blank b))
has_filter-last (c ∷ k) false b h = rw (append-nil (c ∷ k), lines-last (c ∷ k) h refl) refl

lines_line_end : lines (codes "\n") ≡ [] ∷ []
unfolding lines
lines_line_end = refl

-- Lines that are joined are read again, as far as a filter goes.
has_filter-join :
    (ks : List Str) (newline b : Bool)
    → All NoBreak ks
    → has_filter (lines (join (codes "\n") ks ++ ending newline)) b ≡ has_filter ks b
unfolding join
has_filter-join [] true b h =
    ap (λ ls. has_filter ls b) lines_line_end ∙ (has_filter_blank b ∙ sym (has_filter_nil b))
has_filter-join [] false b h = ap (λ ls. has_filter ls b) lines_nil
has_filter-join (k ∷ []) newline b h = has_filter-last k newline b h.0
has_filter-join (k ∷ l ∷ ks) newline b h =
    ap (λ u. has_filter (lines u) b)
      (append_assoc (k ++ codes "\n") (join (codes "\n") (l ∷ ks)) (ending newline)
        ∙ append_assoc k (codes "\n") (join (codes "\n") (l ∷ ks) ++ ending newline))
    ∙ (ap (λ ls. has_filter ls b) (lines-line k (join (codes "\n") (l ∷ ks) ++ ending newline) h.0)
        ∙ has_filter-drop_cr k (lines (join (codes "\n") (l ∷ ks) ++ ending newline)) (l ∷ ks) b
            (λ d. has_filter-join (l ∷ ks) newline d h.1))

cons_head-NoBreak :
    (c : ℕ) (ls : List Str) → (c == 10) ≡ false → All NoBreak ls → All NoBreak (cons_head c ls)
cons_head-NoBreak c [] h k = ((h, tt), tt)
cons_head-NoBreak c (l ∷ ls) h k = ((h, k.0), k.1)

lines-NoBreak : (s : Str) → All NoBreak (lines s)
unfolding lines
lines-NoBreak [] = tt
lines-NoBreak (c ∷ s) = elim (Bool-cases (c == 10)) [
  | inl e ↦ rw e (tt, lines-NoBreak s)
  | inr e ↦ elim (Bool-cases (c == 13 && starts_with (codes "\n") s)) [
    | inl k ↦ rw (e, k) (lines-NoBreak s)
    | inr k ↦ rw (e, k) (cons_head-NoBreak c (lines s) e (lines-NoBreak s))
  ]
]

strip_lines-All :
    (P : Str → Type 0) (ls : List Str) (b : Bool) (k : Option ℕ)
    → All P ls
    → All P (strip_lines ls b k).0
unfolding strip_lines
strip_lines-All P [] b k h = tt
strip_lines-All P (l ∷ ls) b k h =
    let after = b && not (is_jobs_line l) in
    elim (fate_cases (line_fate b k l)) [
      | is_skip e ↦ rw (e, strip_lines) (strip_lines-All P ls b k h.1)
      | is_drop e ↦ rw (e, strip_lines) (strip_lines-All P ls after (skip_from l) h.1)
      | is_keep e ↦ rw (e, strip_lines) (h.0, strip_lines-All P ls after none h.1)
    ]

-- A text that was written has no path filter.
pub has_path_filter-remove_on_paths :
    (text : Str) → has_path_filter (remove_on_paths text).0 ≡ false
unfolding has_path_filter remove_on_paths
has_path_filter-remove_on_paths text =
    has_filter-join (strip_lines (lines text) true none).0 (ends_with_char 10 text) true
      (strip_lines-All NoBreak (lines text) true none (lines-NoBreak text))
    ∙ has_filter-strip_lines (lines text) true none

-- Something is removed exactly from a text with a path filter.
pub remove_on_paths-has_path_filter : (text : Str) → (remove_on_paths text).1 ≡ has_path_filter text
unfolding has_path_filter remove_on_paths
remove_on_paths-has_path_filter text = strip_lines-has_filter (lines text) true
