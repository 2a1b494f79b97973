-- ===== src/Chains/Landing.antt =====
-- crates/squabble-core/src/chains.rs, `ChainGraph::landing_order`: every upstream before its
-- consumers, in rounds of the repositories that wait on nothing that is not done. The fuel is one
-- more than the number of repositories, and each round lands at least one.
use cicd_squabbler.Prelude.{
  ℕ, zero, suc, Bool, false, not, ◌&&◌, ◌||◌, leb, Option, none, some, List, [], ◌∷◌, ◌++◌, map,
  all, is_nil, length, if◌then◌else◌,
}
use cicd_squabbler.Chains.{RepoId, repo_eq, repo_lt, Edge, is_self}
use cicd_squabbler.Chains.Graph.{ChainGraph, contains_repo, set_insert}

unfoldable pub insert_all : List RepoId → List RepoId → List RepoId
insert_all s [] = s
insert_all s (r ∷ rs) = insert_all (set_insert s r) rs

unfoldable pub edge_nodes : List RepoId → List Edge → List RepoId
edge_nodes s [] = s
edge_nodes s (e ∷ es) = edge_nodes (set_insert (set_insert s e.from) e.to) es

unfoldable pub nodes : ChainGraph → List RepoId
unfolding edge_nodes insert_all
nodes g = edge_nodes (insert_all [] (map (λ entry. entry.0) g.scans)) g.edges

-- The BTreeSet of pairs that `repo_edges` collects.
unfoldable pub contains_pair : List (RepoId × RepoId) → RepoId × RepoId → Bool
contains_pair [] p = false
contains_pair (q ∷ s) p = (repo_eq q.0 p.0 && repo_eq q.1 p.1) || contains_pair s p

unfoldable pub place_pair : List (RepoId × RepoId) → RepoId × RepoId → List (RepoId × RepoId)
place_pair [] p = p ∷ []
place_pair (q ∷ s) p =
    let rest = place_pair s p in
    if repo_lt p.0 q.0 || (repo_eq p.0 q.0 && repo_lt p.1 q.1) then p ∷ (q ∷ s) else q ∷ rest

unfoldable pub insert_pair : List (RepoId × RepoId) → RepoId × RepoId → List (RepoId × RepoId)
unfolding contains_pair place_pair
insert_pair s p = if contains_pair s p then s else place_pair s p

unfoldable pub collect_pairs : List (RepoId × RepoId) → List Edge → List (RepoId × RepoId)
unfolding insert_pair
collect_pairs s [] = s
collect_pairs s (e ∷ es) = collect_pairs (if is_self e then s else insert_pair s (e.from, e.to)) es

unfoldable pub repo_edges : ChainGraph → List (RepoId × RepoId)
unfolding collect_pairs
repo_edges g = collect_pairs [] g.edges

-- `waits.entry(from).or_default().insert(to)`: every `from` is a key already, and no two keys are
-- equal.
unfoldable pub add_wait :
    List (RepoId × List RepoId) → RepoId × RepoId → List (RepoId × List RepoId)
add_wait [] p = []
add_wait (entry ∷ waits) p =
    (if repo_eq entry.0 p.0 then (entry.0, set_insert entry.1 p.1) else entry) ∷ add_wait waits p

unfoldable pub add_waits :
    List (RepoId × List RepoId) → List (RepoId × RepoId) → List (RepoId × List RepoId)
unfolding add_wait
add_waits waits [] = waits
add_waits waits (p ∷ ps) = add_waits (add_wait waits p) ps

unfoldable pub ready_of : List (RepoId × List RepoId) → List RepoId → List RepoId
ready_of [] done = []
ready_of (entry ∷ waits) done =
    let rest = ready_of waits done in
    if not (contains_repo done entry.0) && all (contains_repo done) entry.1
    then entry.0 ∷ rest
    else rest

pub data Landing : Type 0 where
  landed : (order : List RepoId) → Landing
  cyclic out_of_fuel : Landing

unfoldable pub rounds : ℕ → ℕ → List (RepoId × List RepoId) → List RepoId → List RepoId → Landing
unfolding ready_of insert_all
rounds zero total waits done order = out_of_fuel
rounds (suc fuel) total waits done order =
    let ready = ready_of waits done in
    let rest = rounds fuel total waits (insert_all done ready) (order ++ ready) in
    if leb total (length done) then landed order else if is_nil ready then cyclic else rest

unfoldable pub landing : ChainGraph → Landing
unfolding rounds nodes repo_edges add_waits
landing g =
    rounds (suc (length (nodes g))) (length (nodes g))
      (add_waits (map (λ n. (n, [])) (nodes g)) (repo_edges g)) [] []

unfoldable pub order_of : Landing → Option (List RepoId)
order_of (landed order) = some order
order_of _ = none

unfoldable pub landing_order : ChainGraph → Option (List RepoId)
unfolding order_of landing
landing_order g = order_of (landing g)
