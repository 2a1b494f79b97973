-- ===== src/Chains/Edges.antt =====
-- What the nodes and the pairs of a graph hold of its edges.
use cicd_squabbler.Prelude.{
  ◌≡◌, refl, true, false, ◌&&◌, ◌||◌, Bool-cases, inl, inr, List, [], ◌∷◌, if◌then◌else◌, All, In,
  arith, map,
}
use mathlib.Core.Path.{subst, sym}
use cicd_squabbler.Chains.{RepoId, repo_eq, Edge, is_self}
use cicd_squabbler.Chains.Graph.{ChainGraph, contains_repo, set_insert}
use cicd_squabbler.Chains.Landing.{
  insert_all, edge_nodes, nodes, contains_pair, place_pair, insert_pair, collect_pairs, repo_edges,
}
use cicd_squabbler.Chains.Sets.{contains-cong, contains-set_insert}
use cicd_squabbler.Chains.Upstreams.{WaitsOn}
use cicd_squabbler.Chains.Records.{repo_eq_iff}

edge_nodes-old :
    (s : List RepoId) (es : List Edge) (n : RepoId)
    → contains_repo s n ≡ true
    → contains_repo (edge_nodes s es) n ≡ true
unfolding edge_nodes
edge_nodes-old s [] n h = h
edge_nodes-old s (e ∷ es) n h = edge_nodes-old (set_insert (set_insert s e.from) e.to) es n (
    ground
      (arith, h, contains-set_insert (set_insert s e.from) e.to n, contains-set_insert s e.from n))

edge_nodes-from :
    (s : List RepoId) (es : List Edge) (e : Edge)
    → In e es
    → contains_repo (edge_nodes s es) e.from ≡ true
unfolding edge_nodes
edge_nodes-from s [] e m = absurd m
edge_nodes-from s (d ∷ es) e (inl same) =
    subst (λ x. contains_repo (edge_nodes (set_insert (set_insert s d.from) d.to) es) x.from ≡ true)
      same
      (edge_nodes-old (set_insert (set_insert s d.from) d.to) es d.from (
        ground (
          arith,
          (repo_eq_iff d.from d.from).1 refl,
          contains-set_insert (set_insert s d.from) d.to d.from,
          contains-set_insert s d.from d.from,
        )))
edge_nodes-from s (d ∷ es) e (inr m) =
    edge_nodes-from (set_insert (set_insert s d.from) d.to) es e m

pub nodes-from : (g : ChainGraph) (e : Edge) → In e g.edges → contains_repo (nodes g) e.from ≡ true
unfolding nodes
nodes-from g e m = edge_nodes-from (insert_all [] (map (λ entry. entry.0) g.scans)) g.edges e m

edge_nodes-to :
    (s : List RepoId) (es : List Edge) (e : Edge)
    → In e es
    → contains_repo (edge_nodes s es) e.to ≡ true
unfolding edge_nodes
edge_nodes-to s [] e m = absurd m
edge_nodes-to s (d ∷ es) e (inl same) =
    subst (λ x. contains_repo (edge_nodes (set_insert (set_insert s d.from) d.to) es) x.to ≡ true)
      same
      (edge_nodes-old (set_insert (set_insert s d.from) d.to) es d.to (
        ground (
          arith,
          (repo_eq_iff d.to d.to).1 refl,
          contains-set_insert (set_insert s d.from) d.to d.to,
        )))
edge_nodes-to s (d ∷ es) e (inr m) = edge_nodes-to (set_insert (set_insert s d.from) d.to) es e m

pub nodes-to : (g : ChainGraph) (e : Edge) → In e g.edges → contains_repo (nodes g) e.to ≡ true
unfolding nodes
nodes-to g e m = edge_nodes-to (insert_all [] (map (λ entry. entry.0) g.scans)) g.edges e m

pub contains-place_pair :
    (s : List (RepoId × RepoId)) (p q : RepoId × RepoId)
    → contains_pair (place_pair s p) q ≡ ((repo_eq p.0 q.0 && repo_eq p.1 q.1) || contains_pair s q)
unfolding contains_pair place_pair
contains-place_pair [] p q = refl
contains-place_pair (x ∷ s) p q = ground (arith, contains-place_pair s p q)

contains-insert_pair :
    (s : List (RepoId × RepoId)) (p q : RepoId × RepoId)
    → contains_pair s q ≡ true
    → contains_pair (insert_pair s p) q ≡ true
unfolding insert_pair
contains-insert_pair s p q h = ground (arith, contains-place_pair s p q)

insert_pair-new :
    (s : List (RepoId × RepoId)) (p : RepoId × RepoId) → contains_pair (insert_pair s p) p ≡ true
unfolding insert_pair
insert_pair-new s p =
    ground
      (arith, contains-place_pair s p p, (repo_eq_iff p.0 p.0).1 refl, (repo_eq_iff p.1 p.1).1 refl)

collect_pairs-old :
    (s : List (RepoId × RepoId)) (es : List Edge) (q : RepoId × RepoId)
    → contains_pair s q ≡ true
    → contains_pair (collect_pairs s es) q ≡ true
unfolding collect_pairs
collect_pairs-old s [] q h = h
collect_pairs-old s (e ∷ es) q h =
    collect_pairs-old (if is_self e then s else insert_pair s (e.from, e.to)) es q
      (ground (arith, h, contains-insert_pair s (e.from, e.to) q))

collect_pairs-new :
    (s : List (RepoId × RepoId)) (es : List Edge) (e : Edge)
    → In e es
    → is_self e ≡ false
    → contains_pair (collect_pairs s es) (e.from, e.to) ≡ true
unfolding collect_pairs
collect_pairs-new s [] e m h = absurd m
collect_pairs-new s (d ∷ es) e (inl same) h =
    let h' = subst (λ x. is_self x ≡ false) (sym same) h in
    subst (λ x. contains_pair (collect_pairs s (d ∷ es)) (x.from, x.to) ≡ true) same
      (collect_pairs-old (if is_self d then s else insert_pair s (d.from, d.to)) es (d.from, d.to)
        (rw h' (insert_pair-new s (d.from, d.to))))
collect_pairs-new s (d ∷ es) e (inr m) h =
    collect_pairs-new (if is_self d then s else insert_pair s (d.from, d.to)) es e m h

WaitsOn-cong :
    (waits : List (RepoId × List RepoId)) (a b c d : RepoId)
    → repo_eq a c ≡ true
    → repo_eq b d ≡ true
    → WaitsOn waits a b
    → WaitsOn waits c d
WaitsOn-cong [] a b c d h k w = tt
WaitsOn-cong (entry ∷ waits) a b c d h k w = ground (
  arith,
  WaitsOn-cong waits a b c d h k,
  contains-cong entry.1 b d k,
  repo_eq_iff entry.0 a,
  repo_eq_iff entry.0 c,
  repo_eq_iff a c,
)

All-WaitsOn :
    (waits : List (RepoId × List RepoId)) (ps : List (RepoId × RepoId)) (q : RepoId × RepoId)
    → All (λ p. WaitsOn waits p.0 p.1) ps
    → contains_pair ps q ≡ true
    → WaitsOn waits q.0 q.1
unfolding contains_pair
All-WaitsOn waits [] q h m = cc
All-WaitsOn waits (p ∷ ps) q h m = elim (Bool-cases (repo_eq p.0 q.0 && repo_eq p.1 q.1)) [
  | inl same ↦
      let both : (repo_eq p.0 q.0 ≡ true) × (repo_eq p.1 q.1 ≡ true) = ground (arith, same) in
      WaitsOn-cong waits p.0 p.1 q.0 q.1 both.0 both.1 h.0
  | inr other ↦ All-WaitsOn waits ps q h.1 (ground (arith, other, m))
]

pub edge-WaitsOn :
    (g : ChainGraph) (waits : List (RepoId × List RepoId)) (e : Edge)
    → All (λ p. WaitsOn waits p.0 p.1) (repo_edges g)
    → In e g.edges
    → is_self e ≡ false
    → WaitsOn waits e.from e.to
unfolding repo_edges
edge-WaitsOn g waits e h m k =
    All-WaitsOn waits (repo_edges g) (e.from, e.to) h (collect_pairs-new [] g.edges e m k)
