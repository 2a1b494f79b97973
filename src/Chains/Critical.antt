-- ===== src/Chains/Critical.antt =====
-- crates/squabble-core/src/chains.rs, `ChainGraph::critical_path`: the heaviest chain of upstreams
-- and consumers. `weight` is the closure that the caller passes. The fuel of the walk back is the
-- number of repositories that were weighed.
use cicd_squabbler.Prelude.{
  ℕ, zero, suc, ◌+◌, Bool, ◌&&◌, ◌||◌, ltb, ◌==◌, Option, none, some, if_let, ◌>>=◌, List, [], ◌∷◌,
  length, if◌then◌else◌,
}
use cicd_squabbler.Chains.{RepoId, repo_eq, repo_lt}
use cicd_squabbler.Chains.Graph.{ChainGraph, get, insert}
use cicd_squabbler.Chains.Landing.{repo_edges, landing_order}

abbrev pub largest_u64 : ℕ
largest_u64 = 18446744073709551615

-- `u64::saturating_add`
unfoldable pub saturating_add : ℕ → ℕ → ℕ
saturating_add a b = if ltb largest_u64 (a + b) then largest_u64 else a + b

-- The heaviest chain that ends at a repository: its weight, and the repository before the last.
abbrev pub Best : Type 0
Best = ℕ × Option RepoId

unfoldable pub better : ℕ → RepoId → Option Best → Best → Best
unfolding saturating_add
better own to none cand = cand
better own to (some best) cand =
    if ltb cand.0 (saturating_add best.0 own) then (saturating_add best.0 own, some to) else cand

unfoldable pub candidate : List (RepoId × Best) → RepoId → ℕ → List (RepoId × RepoId) → Best → Best
unfolding better get
candidate best n own [] cand = cand
candidate best n own (p ∷ ps) cand =
    candidate best n own ps (if repo_eq p.0 n then better own p.1 (get best p.1) cand else cand)

unfoldable pub weigh :
    (RepoId → ℕ)
    → List (RepoId × RepoId)
    → List (RepoId × Best)
    → List RepoId
    → List (RepoId × Best)
unfolding candidate insert
weigh weight edges best [] = best
weigh weight edges best (n ∷ order) =
    weigh weight edges (insert best n (candidate best n (weight n) edges (weight n, none))) order

-- `max_by`: the greater weight, and among equal ones the lesser name.
unfoldable pub is_greater : RepoId × Best → RepoId × Best → Bool
is_greater a b = ltb b.1.0 a.1.0 || (a.1.0 == b.1.0 && repo_lt a.0 b.0)

unfoldable pub max_from : RepoId × Best → List (RepoId × Best) → RepoId × Best
unfolding is_greater
max_from a [] = a
max_from a (b ∷ rest) = max_from (if is_greater a b then a else b) rest

unfoldable pub max_entry : List (RepoId × Best) → Option (RepoId × Best)
unfolding max_from
max_entry [] = none
max_entry (a ∷ rest) = some (max_from a rest)

-- The walk from the end of the chain to its start; `path` holds what stands behind `cur`.
unfoldable pub walk_back : List (RepoId × Best) → ℕ → RepoId → List RepoId → Option (List RepoId)
unfolding get
walk_back best zero cur path = none
walk_back best (suc fuel) cur path =
    if_let (get best cur >>= λ b. b.1) (λ prev. walk_back best fuel prev (cur ∷ path))
      (some (cur ∷ path))

unfoldable pub path_of : List (RepoId × Best) → Option (ℕ × List RepoId)
unfolding max_entry walk_back
path_of best =
    max_entry best >>= λ end. walk_back best (length best) end.0 [] >>= λ path. some (end.1.0, path)

unfoldable pub critical_path : ChainGraph → (RepoId → ℕ) → Option (ℕ × List RepoId)
unfolding landing_order repo_edges weigh path_of
critical_path g weight = landing_order g >>= λ order. path_of (weigh weight (repo_edges g) [] order)
