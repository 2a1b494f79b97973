-- ===== src/Fight/Apply/Jobs.antt =====
-- The text of a workflow from its `jobs:` line on, where path filters are removed.
use cicd_squabbler.Prelude.{
  ==_iff, Bool-cases, ◌≡◌, refl, ◌⊎◌, inl, inr, true, false, ◌==◌, none, List, [], ◌∷◌, ◌++◌, All,
  arith, Str, codes, cons_head, starts_with, is_nil, lines, join, ends_with_char, if◌then◌else◌, ap,
  sym, ◌∙◌,
}
use mathlib.Core.List.{append_assoc}
use cicd_squabbler.Workflows.Filter.{is_jobs_line}
use cicd_squabbler.Fight.Apply.{strip_lines, remove_on_paths}
use cicd_squabbler.Fight.Apply.Filters.{strip_lines-jobs}

cons_head-append :
    (c : _) (ls ms : List Str) → is_nil ls ≡ false → cons_head c (ls ++ ms) ≡ cons_head c ls ++ ms
cons_head-append c [] ms h = cc h
cons_head-append c (l ∷ ls) ms h = refl

is_nil-cons_head : (c : _) (ls : List Str) → is_nil (cons_head c ls) ≡ false
is_nil-cons_head c [] = refl
is_nil-cons_head c (l ∷ ls) = refl

-- A text that is not empty has a line.
is_nil-lines : (s : Str) → is_nil s ≡ false → is_nil (lines s) ≡ false
unfolding lines starts_with
is_nil-lines [] h = cc h
is_nil-lines (c ∷ []) h = ground (arith, is_nil-cons_head c [])
is_nil-lines (c ∷ d ∷ s) h =
    ground (arith, is_nil-cons_head c (lines (d ∷ s)), is_nil-lines (d ∷ s) refl)

-- A text that ends with a line feed, and one behind it: the lines of both.
lines-append : (s t : Str) → ends_with_char 10 s ≡ true → lines (s ++ t) ≡ lines s ++ lines t
unfolding lines ends_with_char starts_with
lines-append [] t h = cc
lines-append (c ∷ []) t h = ground arith
lines-append (c ∷ d ∷ s) t h = ground (
  arith,
  lines-append (d ∷ s) t h,
  cons_head-append c (lines (d ∷ s)) (lines t) (is_nil-lines (d ∷ s) refl),
)

join_cons :
    (l : Str) (ls : List Str)
    → is_nil ls ≡ false
    → join (codes "\n") (l ∷ ls) ≡ l ++ (10 ∷ join (codes "\n") ls)
unfolding join
join_cons l [] h = cc h
join_cons l (m ∷ ls) h = append_assoc l (codes "\n") (join (codes "\n") (m ∷ ls))

join-cons_head :
    (c : _) (ls : List Str)
    → is_nil ls ≡ false
    → join (codes "\n") (cons_head c ls) ≡ c ∷ join (codes "\n") ls
unfolding join
join-cons_head c [] h = cc
join-cons_head c (l ∷ []) h = refl
join-cons_head c (l ∷ m ∷ ls) h = refl

abbrev ending : Str → Str
ending s = if ends_with_char 10 s then codes "\n" else []

lines_feed : (s : Str) → lines (10 ∷ s) ≡ [] ∷ lines s
unfolding lines
lines_feed s = refl

lines_other :
    (c : _) (s : Str)
    → (c == 10) ≡ false
    → (c == 13) ≡ false
    → lines (c ∷ s) ≡ cons_head c (lines s)
unfolding lines
lines_other c s h k = ground (arith, h, k)

ending_cons : (c d : _) (s : Str) → ending (c ∷ d ∷ s) ≡ ending (d ∷ s)
unfolding ends_with_char
ending_cons c d s = refl

join-lines_nil : join (codes "\n") (lines []) ++ ending [] ≡ []
unfolding join lines ends_with_char
join-lines_nil = refl

join-lines_one :
    (c : _) → (c == 13) ≡ false → join (codes "\n") (lines (c ∷ [])) ++ ending (c ∷ []) ≡ c ∷ []
unfolding join lines ends_with_char starts_with
join-lines_one c h = ground (arith, h)

-- Without carriage returns, the lines that are joined give the text back.
join-lines :
    (s : Str) → All (λ c. (c == 13) ≡ false) s → join (codes "\n") (lines s) ++ ending s ≡ s
join-lines [] h = join-lines_nil
join-lines (c ∷ []) h = join-lines_one c h.0
join-lines (c ∷ d ∷ s) h =
    let more = is_nil-lines (d ∷ s) refl in
    let rest = join-lines (d ∷ s) h.1 in
    elim (Bool-cases (c == 10)) [
      | inl e ↦
          rw
            (
              (==_iff c 10).0 e,
              lines_feed (d ∷ s),
              join_cons [] (lines (d ∷ s)) more,
              ending_cons 10 d s,
              rest,
            )
            refl
      | inr e ↦
          rw
            (
              lines_other c (d ∷ s) e h.0,
              join-cons_head c (lines (d ∷ s)) more,
              ending_cons c d s,
              rest,
            )
            refl
    ]

-- The lines, each with a line feed behind it.
abbrev pub terminated : List Str → Str
terminated [] = []
terminated (l ∷ ls) = l ++ (10 ∷ terminated ls)

join-append :
    (ls ms : List Str)
    → is_nil ms ≡ false
    → join (codes "\n") (ls ++ ms) ≡ terminated ls ++ join (codes "\n") ms
join-append [] ms h = refl
join-append (l ∷ ls) ms h =
    join_cons l (ls ++ ms) (filled ls h)
    ∙ (ap (λ t. l ++ (10 ∷ t)) (join-append ls ms h)
        ∙ sym (append_assoc l (10 ∷ terminated ls) (join (codes "\n") ms)))
  where
    filled : (ls : List Str) → is_nil ms ≡ false → is_nil (ls ++ ms) ≡ false
    filled [] k = k
    filled (x ∷ ls) k = refl

ends_with_char-append :
    (s t : Str) → is_nil t ≡ false → ends_with_char 10 (s ++ t) ≡ ends_with_char 10 t
unfolding ends_with_char
ends_with_char-append [] t h = refl
ends_with_char-append (c ∷ []) [] h = cc
ends_with_char-append (c ∷ []) (d ∷ t) h = refl
ends_with_char-append (c ∷ d ∷ s) t h = ends_with_char-append (d ∷ s) t h

lines_empty : lines [] ≡ []
unfolding lines
lines_empty = refl

has_line : (s l : Str) (rest : List Str) → lines s ≡ l ∷ rest → is_nil s ≡ false
unfolding lines
has_line [] l rest e = cc
has_line (c ∷ s) l rest e = refl

lines-append_block :
    (s t : Str) → (s ≡ []) ⊎ (ends_with_char 10 s ≡ true) → lines (s ++ t) ≡ lines s ++ lines t
lines-append_block s t (inl h) = rw (h, lines_empty) refl
lines-append_block s t (inr h) = lines-append s t h

-- Where a text is split before the line of its `jobs:` key and has no carriage return behind the
-- split, what stands behind the split is the end of the result, character by character: only lines
-- before it are left out.
pub remove_on_paths-jobs :
    (head block l : Str) (rest : List Str)
    → (head ≡ []) ⊎ (ends_with_char 10 head ≡ true)
    → lines block ≡ l ∷ rest
    → is_jobs_line l ≡ true
    → All (λ c. (c == 13) ≡ false) block
    → (remove_on_paths (head ++ block)).0
      ≡ terminated (strip_lines (lines head) true none).0 ++ block
unfolding remove_on_paths
remove_on_paths-jobs head block l rest h k jobs plain =
    let kept = (strip_lines (lines head) true none).0 in
    let joined : join (codes "\n") (kept ++ l ∷ rest)
        ≡ terminated kept ++ join (codes "\n") (lines block) =
      join-append kept (l ∷ rest) refl
      ∙ ap (λ ls. terminated kept ++ join (codes "\n") ls) (sym k) in
    rw
      (
        lines-append_block head block h,
        k,
        strip_lines-jobs (lines head) l rest true none jobs,
        joined,
        ends_with_char-append head block (has_line block l rest k),
      )
      (append_assoc (terminated kept) (join (codes "\n") (lines block)) (ending block)
        ∙ ap (λ t. terminated kept ++ t) (join-lines block plain))
