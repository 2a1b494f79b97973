-- ===== src/Chains/Routes.antt =====
-- crates/squabble-core/src/chains.rs, `RevisionBasis`, `Route` and `ChainGraph::routes_into`: every
-- pin through which an upstream enters the CI of a consumer. The fuel of `follow` bounds the depth of
-- the calls by the number of edges, since each call that is followed is new.
use cicd_squabbler.Prelude.{
  ℕ, zero, suc, Bool, true, false, ◌&&◌, ◌||◌, if◌then◌else◌, Option, none, some, ◌>>=◌, List, [],
  ◌∷◌, ◌++◌, map, filter, length, Str, str_eq, str_lt, eq_ignore_ascii_case,
}
use cicd_squabbler.Chains.{RepoId, repo_eq, repo_lt, Pin, sha, Edge, is_self}
use cicd_squabbler.Chains.Graph.{ChainGraph, scanned_revision}
use cicd_squabbler.Chains.Keys.{lex, pin_eq, pin_lt}
use cicd_squabbler.Chains.Cycles.{repos_lt}
use cicd_squabbler.Chains.Confirmed.{reusable_file}

pub data RevisionBasis : Type 0 where
  direct pinned_revision scanned_revision_only : RevisionBasis

pub record Route : Type 0 where
  pub target : RepoId
  pub pin : Pin
  pub via : List RepoId
  pub basis : RevisionBasis
  pub file : Str

unfoldable pub basis_eq : RevisionBasis → RevisionBasis → Bool
basis_eq direct direct = true
basis_eq pinned_revision pinned_revision = true
basis_eq scanned_revision_only scanned_revision_only = true
basis_eq _ _ = false

unfoldable pub basis_lt : RevisionBasis → RevisionBasis → Bool
basis_lt direct pinned_revision = true
basis_lt direct scanned_revision_only = true
basis_lt pinned_revision scanned_revision_only = true
basis_lt _ _ = false

unfoldable pub repos_eq : List RepoId → List RepoId → Bool
repos_eq [] [] = true
repos_eq (a ∷ rest) (b ∷ others) = repo_eq a b && repos_eq rest others
repos_eq _ _ = false

unfoldable pub route_eq : Route → Route → Bool
unfolding repo_eq pin_eq repos_eq basis_eq
route_eq a b =
    repo_eq a.target b.target
    && (pin_eq a.pin b.pin
        && (repos_eq a.via b.via && (basis_eq a.basis b.basis && str_eq a.file b.file)))

unfoldable pub route_lt : Route → Route → Bool
unfolding repo_eq repo_lt pin_eq pin_lt repos_eq repos_lt basis_eq basis_lt
route_lt a b = lex (repo_lt a.target b.target) (repo_eq a.target b.target) (
    lex (pin_lt a.pin b.pin) (pin_eq a.pin b.pin) (
      lex (repos_lt a.via b.via) (repos_eq a.via b.via)
        (lex (basis_lt a.basis b.basis) (basis_eq a.basis b.basis) (str_lt a.file b.file))))

-- The workflows that were followed, and the routes found.
abbrev pub Walk : Type 0
Walk = List (RepoId × Str) × List Route

unfoldable pub is_visited : List (RepoId × Str) → RepoId → Str → Bool
is_visited [] repo file = false
is_visited (v ∷ visited) repo file =
    (repo_eq v.0 repo && str_eq v.1 file) || is_visited visited repo file

unfoldable pub basis_of : Pin → Option Str → RevisionBasis
basis_of (sha p) (some rev) =
    if eq_ignore_ascii_case p rev then pinned_revision else scanned_revision_only
basis_of _ _ = scanned_revision_only

-- The edges of the workflow that `call` names.
unfoldable pub inner_edges : ChainGraph → RepoId → Str → List Edge
inner_edges g repo file = filter (λ e. repo_eq e.from repo && str_eq e.file file) g.edges

unfoldable pub route_through : Edge → List RepoId → RevisionBasis → Edge → Route
route_through call via basis inner = record {
  target = inner.to;
  pin = inner.pin;
  via = via;
  basis = basis;
  file = call.file;
}

-- The loop over the inner edges; `follow` is the recursive call.
unfoldable pub each_inner :
    (Edge → Walk → Option Walk) → (Edge → Route) → List Edge → Walk → Option Walk
each_inner follow route [] w = some w
each_inner follow route (inner ∷ rest) w =
    follow inner (w.0, w.1 ++ route inner ∷ []) >>= λ next. each_inner follow route rest next

unfoldable pub follow : ChainGraph → ℕ → List RepoId → Edge → Walk → Option Walk
unfolding reusable_file is_self is_visited scanned_revision basis_of each_inner inner_edges
    route_through
follow g zero via call w = none
follow g (suc fuel) via call w = elim (reusable_file call) [
  | none ↦ some w
  | some file ↦
      let followed =
        each_inner (follow g fuel (via ++ call.to ∷ []))
          (route_through call (via ++ call.to ∷ [])
            (basis_of call.pin (scanned_revision g call.to)))
          (inner_edges g call.to file) ((call.to, file) ∷ w.0, w.1) in
      if is_self call || is_visited w.0 call.to file then some w else followed
]

unfoldable pub follow_all : ChainGraph → List Edge → Walk → Option Walk
unfolding follow
follow_all g [] w = some w
follow_all g (e ∷ es) w = follow g (suc (length g.edges)) [] e w >>= λ next. follow_all g es next

unfoldable pub direct_route : Edge → Route
direct_route e = record { target = e.to; pin = e.pin; via = []; basis = direct; file = e.file }

unfoldable pub edges_of : ChainGraph → RepoId → List Edge
edges_of g consumer = filter (λ e. repo_eq e.from consumer) g.edges

unfoldable pub routes_into : ChainGraph → RepoId → Option (List Route)
unfolding edges_of direct_route follow_all
routes_into g consumer =
    follow_all g (edges_of g consumer) ([], map direct_route (edges_of g consumer)) >>= λ w.
    some w.1
