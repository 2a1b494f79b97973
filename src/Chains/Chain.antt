-- ===== src/Chains/Chain.antt =====
-- Chains of repositories that wait on each other, and what the search for the heaviest one records.
use cicd_squabbler.Prelude.{
  ℕ, zero, suc, ◌+◌, ◌≤◌, ◌≡◌, refl, ◌⊎◌, true, ◌&&◌, ltb, Bool-cases, Option-cases, inl, inr, none,
  some, List, [], ◌∷◌, length, if◌then◌else◌, arith, sym, ◌∙◌,
}
use mathlib.Core.Path.{subst}
use cicd_squabbler.Chains.{RepoId, repo_eq}
use cicd_squabbler.Chains.Graph.{get, insert}
use cicd_squabbler.Chains.Records.{repo_eq_iff, get-insert}
use cicd_squabbler.Chains.Confirming.{get-cong}
use cicd_squabbler.Chains.Landing.{contains_pair}
use cicd_squabbler.Chains.Critical.{saturating_add, Best, better, candidate, walk_back}

pub saturating_add_mono : (a b w : ℕ) → a ≤ b → saturating_add a w ≤ saturating_add b w
unfolding saturating_add
saturating_add_mono a b w h = ground arith

-- `onto c path` is `c` backwards before `path`.
abbrev pub onto : List RepoId → List RepoId → List RepoId
onto [] path = path
onto (n ∷ c) path = onto c (n ∷ path)

-- Repositories, each of which has an edge to the next one.
abbrev pub Linked : List (RepoId × RepoId) → List RepoId → Type 0
Linked pairs [] = Unit
Linked pairs (n ∷ []) = Unit
Linked pairs (n ∷ (u ∷ c)) = (contains_pair pairs (n, u) ≡ true) × Linked pairs (u ∷ c)

-- The weights of a chain added up from its upstream end, within 64 bits.
abbrev pub chain_weight : (RepoId → ℕ) → List RepoId → ℕ
chain_weight weight [] = 0
chain_weight weight (n ∷ []) = weight n
chain_weight weight (n ∷ (u ∷ c)) = saturating_add (chain_weight weight (u ∷ c)) (weight n)

-- A new entry leaves the others as they are.
pub get-insert-old :
    (best : List (RepoId × Best)) (m n : RepoId) (x b : Best)
    → get best m ≡ none
    → get best n ≡ some b
    → get (insert best m x) n ≡ some b
get-insert-old best m n x b h k = ground (arith, h, k, get-insert best m n x, get-cong best m n)

pub length-insert :
    (best : List (RepoId × Best)) (m : RepoId) (x : Best)
    → get best m ≡ none
    → length (insert best m x) ≡ length best + 1
unfolding get insert
length-insert [] m x h = refl
length-insert (entry ∷ best) m x h = ground (arith, h, length-insert best m x)

module _ (pairs : List (RepoId × RepoId)) (weight : RepoId → ℕ) where
  -- What `best` says of `n`, traced back along the recorded upstreams `c`.
  pub data Trace (best : List (RepoId × Best)) : RepoId → ℕ → List RepoId → Type 0 where
    stop : (n : RepoId) (w : ℕ) → get best n ≡ some (w, none) → w ≡ weight n → Trace best n w []
    step :
        (n u : RepoId) (w v : ℕ) (c : List RepoId)
        → get best n ≡ some (w, some u)
        → contains_pair pairs (n, u) ≡ true
        → w ≡ saturating_add v (weight n)
        → Trace best u v c
        → Trace best n w (u ∷ c)

  pub Trace-Linked :
      (best : List (RepoId × Best)) (n : RepoId) (w : ℕ) (c : List RepoId)
      → Trace best n w c
      → Linked pairs (n ∷ c) × (chain_weight weight (n ∷ c) ≡ w)
  Trace-Linked best _ _ _ (stop n w h k) = (tt, sym k)
  Trace-Linked best _ _ _ (step n u w v c h l k t) =
      let rest = Trace-Linked best u v c t in ((l, rest.0), rw rest.1 (sym k))

  pub walk_back-Trace :
      (best : List (RepoId × Best)) (n : RepoId) (w : ℕ) (c : List RepoId) (fuel : ℕ)
      (path : List RepoId)
      → Trace best n w c
      → length c + 1 ≤ fuel
      → walk_back best fuel n path ≡ some (onto (n ∷ c) path)
  unfolding walk_back
  walk_back-Trace best _ _ _ zero path (stop n w h k) l = ground (arith, l)
  walk_back-Trace best _ _ _ (suc fuel) path (stop n w h k) l = rw h refl
  walk_back-Trace best _ _ _ zero path (step n u w v c h m k t) l = ground (arith, l)
  walk_back-Trace best _ _ _ (suc fuel) path (step n u w v c h m k t) l =
      rw h (walk_back-Trace best u v c fuel (n ∷ path) t (omega (arith, l)))

  pub Trace-insert :
      (best : List (RepoId × Best)) (m : RepoId) (x : Best) (n : RepoId) (w : ℕ) (c : List RepoId)
      → get best m ≡ none
      → Trace best n w c
      → Trace (insert best m x) n w c
  Trace-insert best m x _ _ _ h (stop n w k l) =
      stop n w (get-insert-old best m n x (w, none) h k) l
  Trace-insert best m x _ _ _ h (step n u w v c k p l t) =
      step n u w v c (get-insert-old best m n x (w, some u) h k) p l
        (Trace-insert best m x u v c h t)

better-upper :
    (own : ℕ) (to : RepoId) (b cand : Best)
    → saturating_add b.0 own ≤ (better own to (some b) cand).0
unfolding better
better-upper own to b cand = ground arith

module _ (best : List (RepoId × Best)) (n : RepoId) (own : ℕ) where
  -- The candidate for `n` weighs at least what it started with, and what each upstream gives.
  pub candidate-start :
      (ps : List (RepoId × RepoId)) (cand : Best) → cand.0 ≤ (candidate best n own ps cand).0
  unfolding candidate better
  candidate-start [] cand = omega arith
  candidate-start (p ∷ ps) cand =
      let next = if repo_eq p.0 n then better own p.1 (get best p.1) cand else cand in
      let less : cand.0 ≤ next.0 = ground arith in omega (arith, less, candidate-start ps next)

  pub candidate-upper :
      (ps : List (RepoId × RepoId)) (cand : Best) (u : RepoId) (b : Best)
      → contains_pair ps (n, u) ≡ true
      → get best u ≡ some b
      → saturating_add b.0 own ≤ (candidate best n own ps cand).0
  unfolding contains_pair candidate
  candidate-upper [] cand u b h k = cc
  candidate-upper (p ∷ ps) cand u b h k = elim (Bool-cases (repo_eq p.0 n && repo_eq p.1 u)) [
    | inl same ↦
        let both : (repo_eq p.0 n ≡ true) × (repo_eq p.1 u ≡ true) = ground (arith, same) in
        let got : get best p.1 ≡ some b = get-cong best p.1 u both.1 ∙ k in
        let next = if repo_eq p.0 n then better own p.1 (get best p.1) cand else cand in
        let less : saturating_add b.0 own ≤ next.0 =
          rw (both.0, got) (better-upper own p.1 b cand) in
        omega (arith, less, candidate-start ps next)
    | inr other ↦
        candidate-upper ps (if repo_eq p.0 n then better own p.1 (get best p.1) cand else cand) u b
          (ground (arith, h, other)) k
  ]

  -- It weighs what it started with, or what the recorded upstream gives.
  abbrev pub IsCandidate : List (RepoId × RepoId) → Best → Best → Type 0
  IsCandidate ps cand r =
      (r ≡ cand)
      ⊎ ((u : RepoId) × ((b : Best) × ((contains_pair ps (n, u) ≡ true)
              × ((get best u ≡ some b) × (r ≡ (saturating_add b.0 own, some u))))))

  IsCandidate-later :
      (p : RepoId × RepoId) (ps : List (RepoId × RepoId)) (cand r : Best)
      → IsCandidate ps cand r
      → IsCandidate (p ∷ ps) cand r
  unfolding contains_pair
  IsCandidate-later p ps cand r (inl e) = inl e
  IsCandidate-later p ps cand r (inr (u, (b, (h, k)))) = inr (u, (b, (ground (arith, h), k)))

  better-IsCandidate :
      (p : RepoId × RepoId) (ps : List (RepoId × RepoId)) (cand : Best)
      → repo_eq p.0 n ≡ true
      → IsCandidate (p ∷ ps) cand (better own p.1 (get best p.1) cand)
  unfolding contains_pair better
  better-IsCandidate p ps cand h = elim (Option-cases (get best p.1)) [
    | inl e ↦ rw e (inl refl)
    | inr (b, e) ↦ elim (Bool-cases (ltb cand.0 (saturating_add b.0 own))) [
      | inr light ↦ rw (e, light) (inl refl)
      | inl heavy ↦
          rw (e, heavy)
            (inr (p.1, (b, (ground (arith, h, (repo_eq_iff p.1 p.1).1 refl), (e, refl)))))
    ]
  ]

  pub candidate-IsCandidate :
      (ps : List (RepoId × RepoId)) (cand : Best)
      → IsCandidate ps cand (candidate best n own ps cand)
  unfolding candidate
  candidate-IsCandidate [] cand = inl refl
  candidate-IsCandidate (p ∷ ps) cand = elim (Bool-cases (repo_eq p.0 n)) [
    | inr other ↦
        rw (candidate, other) (IsCandidate-later p ps cand _ (candidate-IsCandidate ps cand))
    | inl same ↦
        let next = better own p.1 (get best p.1) cand in
        rw (candidate, same)
          (elim (candidate-IsCandidate ps next) [
            | inr later ↦ IsCandidate-later p ps cand _ (inr later)
            | inl e ↦ subst (IsCandidate (p ∷ ps) cand) (sym e) (better-IsCandidate p ps cand same)
          ])
  ]
