-- ===== src/Fight/Apply/Filters.antt =====
-- What `remove_on_paths` takes out of the lines of a workflow, and what it leaves.
use cicd_squabbler.Prelude.{
  Bool-cases, ℕ, ◌≡◌, refl, Bool, true, false, not, ◌&&◌, Option, none, some, List, [], ◌∷◌, ◌++◌,
  inl, inr, arith, Str, starts_with, ap,
}
use cicd_squabbler.Workflows.Filter.{is_jobs_line, is_paths_line, has_filter}
use cicd_squabbler.Fight.Apply.{
  is_skipped, skip_from, LineFate, skip, drop, keep, line_fate, strip_lines,
}

-- Behind the `jobs:` line nothing is a filter, and nothing is dropped.
strip_lines-after_jobs : (ls : List Str) → strip_lines ls false none ≡ (ls, false)
unfolding strip_lines line_fate is_skipped
strip_lines-after_jobs [] = refl
strip_lines-after_jobs (l ∷ ls) = rw (strip_lines-after_jobs ls) refl

-- A line is a filter's key where `before_jobs`, after the line was read, and the line say so.
abbrev is_filter : Bool → Str → Bool
is_filter before l = (before && not (is_jobs_line l)) && is_paths_line l

line_fate-none_drop :
    (before : Bool) (l : Str) → is_filter before l ≡ true → line_fate before none l ≡ drop
unfolding line_fate is_skipped
line_fate-none_drop before l e = rw e refl

line_fate-none_keep :
    (before : Bool) (l : Str) → is_filter before l ≡ false → line_fate before none l ≡ keep
unfolding line_fate is_skipped
line_fate-none_keep before l e = rw e refl

pub strip_lines-has_filter :
    (ls : List Str) (before_jobs : Bool)
    → (strip_lines ls before_jobs none).1 ≡ has_filter ls before_jobs
unfolding strip_lines has_filter
strip_lines-has_filter [] before = refl
strip_lines-has_filter (l ∷ ls) before = elim (Bool-cases (is_filter before l)) [
  | inl e ↦ rw (line_fate-none_drop before l e, e, strip_lines) refl
  | inr e ↦
      rw (line_fate-none_keep before l e, e, strip_lines)
        (strip_lines-has_filter ls (before && not (is_jobs_line l)))
]

-- Without a filter all lines stay.
pub strip_lines-no_filter :
    (ls : List Str) (before_jobs : Bool)
    → has_filter ls before_jobs ≡ false
    → strip_lines ls before_jobs none ≡ (ls, false)
unfolding strip_lines has_filter
strip_lines-no_filter [] before h = refl
strip_lines-no_filter (l ∷ ls) before h = elim (Bool-cases (is_filter before l)) [
  | inl e ↦ cc (rw e at h)
  | inr e ↦
      let rest = strip_lines-no_filter ls (before && not (is_jobs_line l)) (rw e at h) in
      rw (line_fate-none_keep before l e, rest, strip_lines) refl
]

-- A line that is kept is no filter's key.
line_fate-keep :
    (before : Bool) (skipping : Option ℕ) (l : Str)
    → line_fate before skipping l ≡ keep
    → is_filter before l ≡ false
unfolding line_fate
line_fate-keep before skipping l h = ground arith

line_fate-drop :
    (before : Bool) (skipping : Option ℕ) (l : Str)
    → line_fate before skipping l ≡ drop
    → (before && not (is_jobs_line l)) ≡ before
unfolding line_fate
line_fate-drop before skipping l h = ground arith

pub data FateCases : LineFate → Type 0 where
  is_skip : {f : LineFate} → f ≡ skip → FateCases f
  is_drop : {f : LineFate} → f ≡ drop → FateCases f
  is_keep : {f : LineFate} → f ≡ keep → FateCases f

pub fate_cases : (f : LineFate) → FateCases f
fate_cases skip = is_skip refl
fate_cases drop = is_drop refl
fate_cases keep = is_keep refl

-- What is left has no filter.
pub has_filter-strip_lines :
    (ls : List Str) (before_jobs : Bool) (skipping : Option ℕ)
    → has_filter (strip_lines ls before_jobs skipping).0 before_jobs ≡ false
unfolding strip_lines has_filter
has_filter-strip_lines [] before skipping = refl
has_filter-strip_lines (l ∷ ls) before skipping =
    let after = before && not (is_jobs_line l) in
    elim (fate_cases (line_fate before skipping l)) [
      | is_skip e ↦ rw (e, strip_lines) (has_filter-strip_lines ls before skipping)
      | is_drop e ↦
          rw (e, line_fate-drop before skipping l e, strip_lines)
            (has_filter-strip_lines ls before (skip_from l))
      | is_keep e ↦
          rw (e, line_fate-keep before skipping l e, strip_lines)
            (has_filter-strip_lines ls after none)
    ]

is_skipped-is_jobs_line :
    (skipping : Option ℕ) (l : Str) → is_jobs_line l ≡ true → is_skipped skipping l ≡ false
unfolding is_skipped is_jobs_line starts_with
is_skipped-is_jobs_line none l h = refl
is_skipped-is_jobs_line (some k) l h = ground arith

line_fate-is_jobs_line :
    (before : Bool) (skipping : Option ℕ) (l : Str)
    → is_jobs_line l ≡ true
    → line_fate before skipping l ≡ keep
unfolding line_fate
line_fate-is_jobs_line before skipping l h = ground (arith, is_skipped-is_jobs_line skipping l h)

-- The `jobs:` line and everything behind it stays as it is, whatever stands before it.
pub strip_lines-jobs :
    (ls : List Str) (l : Str) (rest : List Str) (before_jobs : Bool) (skipping : Option ℕ)
    → is_jobs_line l ≡ true
    → (strip_lines (ls ++ l ∷ rest) before_jobs skipping).0
      ≡ (strip_lines ls before_jobs skipping).0 ++ l ∷ rest
unfolding strip_lines
strip_lines-jobs [] l rest before skipping h =
    rw (line_fate-is_jobs_line before skipping l h, strip_lines)
      (ap (λ r. l ∷ r.0) (after before (is_jobs_line l) h))
  where
    after :
        (before jobs : Bool)
        → jobs ≡ true
        → strip_lines rest (before && not jobs) none ≡ (rest, false)
    after before true e = cases_false before
      where
        cases_false : (b : Bool) → strip_lines rest (b && false) none ≡ (rest, false)
        cases_false true = strip_lines-after_jobs rest
        cases_false false = strip_lines-after_jobs rest
    after before false e = cc e
strip_lines-jobs (x ∷ ls) l rest before skipping h =
    let after = before && not (is_jobs_line x) in
    elim (fate_cases (line_fate before skipping x)) [
      | is_skip e ↦ rw (e, strip_lines) (strip_lines-jobs ls l rest before skipping h)
      | is_drop e ↦ rw (e, strip_lines) (strip_lines-jobs ls l rest after (skip_from x) h)
      | is_keep e ↦ rw (e, strip_lines) (ap (λ r. x ∷ r) (strip_lines-jobs ls l rest after none h))
    ]
