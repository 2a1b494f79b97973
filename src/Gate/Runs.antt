-- ===== src/Gate/Runs.antt =====
-- What a rollup conclusion means (`CheckRun::from_github`), and which of several runs with one name
-- decides its context (`CheckRun::for_context`).
use cicd_squabbler.Prelude.{
  ◌≤◌, ◌≡◌, refl, ◌↔◌, ◌⊎◌, inl, inr, Bool-cases, Option, none, some, List, [], ◌∷◌, All, In,
  All-In, arith, leb, Str, codes, str_eq_iff,
}
use cicd_squabbler.Gate.{CheckRun, skipped, passed, from_github, rank, max_by_rank, for_context}

-- A run is `Passed` for the conclusion SUCCESS and for nothing else, and it is `Skipped` for the
-- conclusions SKIPPED and NEUTRAL and for nothing else, whatever the status is.
pub from_github-passed_skipped :
    (status conclusion : Option Str)
    → ((from_github status conclusion ≡ passed) ↔ (conclusion ≡ some (codes "SUCCESS")))
      × ((from_github status conclusion ≡ skipped)
          ↔ (conclusion ≡ some (codes "SKIPPED")) ⊎ (conclusion ≡ some (codes "NEUTRAL")))
unfolding from_github
from_github-passed_skipped status none = ground arith
from_github-passed_skipped status (some c) = ground (
  arith,
  str_eq_iff c (codes "SUCCESS"),
  str_eq_iff c (codes "SKIPPED"),
  str_eq_iff c (codes "NEUTRAL"),
)

rank-injective : (a b : CheckRun) → rank a ≡ rank b → a ≡ b
unfolding rank
rank-injective a b h = ground arith

-- `worst` is one of `runs`, and none of them outranks it.
pub record IsWorst (runs : List CheckRun) (worst : CheckRun) : Type 0 where
  pub present : In worst runs
  pub highest : All (λ r. rank r ≤ rank worst) runs

max_by_rank-IsWorst :
    (best : CheckRun) (rs : List CheckRun) → IsWorst (best ∷ rs) (max_by_rank best rs)
unfolding max_by_rank
max_by_rank-IsWorst best [] = record { present = inl refl; highest = ground arith }
max_by_rank-IsWorst best (r ∷ rs) = elim (Bool-cases (leb (rank best) (rank r))) [
  | inl e ↦ rw e (
      let ih = max_by_rank-IsWorst r rs in
      record { present = inr ih.present; highest = ground (arith, ih.highest) })
  | inr e ↦ rw e (
      let ih = max_by_rank-IsWorst best rs in
      record { present = ground (arith, ih.present); highest = ground (arith, ih.highest) })
]

-- Two lists hold the same runs, in any order and any number of times.
abbrev pub SameRuns : List CheckRun → List CheckRun → Type 0
SameRuns xs ys = (r : CheckRun) → In r xs ↔ In r ys

IsWorst-unique :
    (xs ys : List CheckRun) (a b : CheckRun) → SameRuns xs ys → IsWorst xs a → IsWorst ys b → a ≡ b
IsWorst-unique xs ys a b same p q = rank-injective a b (
    omega (
      arith,
      All-In (λ r. rank r ≤ rank a) xs b p.highest ((same b).1 q.present),
      All-In (λ r. rank r ≤ rank b) ys a q.highest ((same a).0 p.present),
    ))

pub for_context-IsWorst :
    (r : CheckRun) (rs : List CheckRun) → IsWorst (r ∷ rs) (for_context (r ∷ rs))
unfolding for_context
for_context-IsWorst = max_by_rank-IsWorst

-- The decision depends only on which runs there are: neither the order in which the API lists them
-- nor a repeated run changes it.
pub for_context-order : (xs ys : List CheckRun) → SameRuns xs ys → for_context xs ≡ for_context ys
for_context-order [] [] same = refl
for_context-order [] (y ∷ ys) same = absurd ((same y).1 (inl refl))
for_context-order (x ∷ xs) [] same = absurd ((same x).0 (inl refl))
for_context-order (x ∷ xs) (y ∷ ys) same =
    IsWorst-unique (x ∷ xs) (y ∷ ys) _ _ same (for_context-IsWorst x xs) (for_context-IsWorst y ys)
