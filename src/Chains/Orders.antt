-- ===== src/Chains/Orders.antt =====
-- A chain of three repositories and a cycle of two, and the theorems about the landing order applied.
use cicd_squabbler.Prelude.{
  ◌≡◌, refl, inl, true, false, none, some, [], ◌∷◌, codes, str_eq, str_lt, to_lower,
  to_ascii_lowercase, eq_ignore_ascii_case,
}
use cicd_squabbler.Chains.{RepoId, repo_eq, repo_lt, mutable, action, Edge, is_self}
use cicd_squabbler.Chains.Graph.{ChainGraph, new_graph, contains_repo, place, set_insert}
use cicd_squabbler.Chains.Landing.{
  insert_all, edge_nodes, nodes, contains_pair, place_pair, insert_pair, collect_pairs, repo_edges,
  add_wait, add_waits, ready_of, rounds, landing, order_of, landing_order,
}
use cicd_squabbler.Chains.Upstreams.{precedes}
use cicd_squabbler.Chains.Order.{landing_order-precedes}

abbrev pub app : RepoId
app = record { slug = codes "o/app" }

abbrev pub ci : RepoId
ci = record { slug = codes "o/ci" }

abbrev pub base : RepoId
base = record { slug = codes "o/base" }

abbrev uses : RepoId → RepoId → Edge
uses from to = record {
  from = from;
  file = codes "ci.yml";
  to = to;
  kind = action;
  path = none;
  pin = mutable (codes "v1");
  version_hint = none;
}

abbrev chain : ChainGraph
chain = record new_graph { edges = uses app ci ∷ uses ci base ∷ uses ci ci ∷ [] }

abbrev pub loop : ChainGraph
loop = record new_graph { edges = uses app ci ∷ uses ci app ∷ [] }

landing_opened : Unit {0}
unfolding str_eq str_lt to_lower to_ascii_lowercase eq_ignore_ascii_case repo_eq repo_lt is_self
    contains_repo place set_insert insert_all edge_nodes nodes contains_pair place_pair insert_pair
    collect_pairs repo_edges add_wait add_waits ready_of rounds landing order_of landing_order
landing_opened = tt

landing_order-chain : landing_order chain ≡ some (base ∷ ci ∷ app ∷ [])
unfolding landing_opened
landing_order-chain = refl

landing_order-loop : landing_order loop ≡ none
unfolding landing_opened
landing_order-loop = refl

app-node : contains_repo (nodes chain) app ≡ true
unfolding landing_opened
app-node = refl

app-is_self : is_self (uses app ci) ≡ false
unfolding landing_opened
app-is_self = refl

landing_order-precedes_example : precedes (base ∷ ci ∷ app ∷ []) ci app ≡ true
landing_order-precedes_example =
    landing_order-precedes chain (base ∷ ci ∷ app ∷ []) (uses app ci) landing_order-chain (inl refl)
      app-is_self
