-- ===== src/Chains/Sources.antt =====
-- The pairs and the edges of a graph that its sets of upstreams come from.
use cicd_squabbler.Prelude.{
  In-All, ◌⊎◌, if◌then◌else◌, ◌≡◌, refl, true, false, Bool-cases, inl, inr, List, [], ◌∷◌, map, All,
  Any, In, arith,
}
use mathlib.Core.Path.{subst, sym, ◌∙◌}
use cicd_squabbler.Chains.{RepoId, repo_eq, Edge, is_self}
use cicd_squabbler.Chains.Graph.{ChainGraph, contains_repo}
use cicd_squabbler.Chains.Landing.{
  nodes, contains_pair, insert_pair, collect_pairs, repo_edges, add_wait, add_waits,
}
use cicd_squabbler.Chains.Records.{repo_eq_iff}
use cicd_squabbler.Chains.KeySets.{repo_eq-cong}
use cicd_squabbler.Chains.Sets.{contains-set_insert}
use cicd_squabbler.Chains.Edges.{contains-place_pair}
use cicd_squabbler.Chains.Order.{waits_of}

repo_eq_sym : (a b : RepoId) → repo_eq a b ≡ true → repo_eq b a ≡ true
repo_eq_sym a b h = ground (arith, repo_eq_iff a b, repo_eq_iff b a, h)

-- The pairs of the graph that the sets of upstreams come from.
abbrev pub ComesFrom : List (RepoId × RepoId) → List (RepoId × List RepoId) → Type 0
ComesFrom ps waits =
    All
      (λ entry.
        (u : RepoId) → contains_repo entry.1 u ≡ true → contains_pair ps (entry.0, u) ≡ true)
      waits

pub contains_pair-cong :
    (s : List (RepoId × RepoId)) (a b c d : RepoId)
    → repo_eq a c ≡ true
    → repo_eq b d ≡ true
    → contains_pair s (a, b) ≡ contains_pair s (c, d)
unfolding contains_pair
contains_pair-cong [] a b c d h k = refl
contains_pair-cong (q ∷ s) a b c d h k =
    ground (arith, contains_pair-cong s a b c d h k, repo_eq-cong q.0 a c h, repo_eq-cong q.1 b d k)

add_wait-ComesFrom :
    (ps : List (RepoId × RepoId)) (p : RepoId × RepoId) (waits : List (RepoId × List RepoId))
    → contains_pair ps p ≡ true
    → ComesFrom ps waits
    → ComesFrom ps (add_wait waits p)
unfolding add_wait
add_wait-ComesFrom ps p [] h k = tt
add_wait-ComesFrom ps p (entry ∷ waits) h k =
    let rest = add_wait-ComesFrom ps p waits h k.1 in
    elim (Bool-cases (repo_eq entry.0 p.0)) [
      | inl same ↦ rw same (
        λ u m. elim (Bool-cases (repo_eq p.1 u)) [
          | inl new ↦
              sym (contains_pair-cong ps p.0 p.1 entry.0 u (repo_eq_sym entry.0 p.0 same) new) ∙ h
          | inr old ↦ k.0 u (ground (arith, old, m, contains-set_insert entry.1 p.1 u))
        ],
        rest,
      )
      | inr other ↦ rw other (k.0, rest)
    ]

add_waits-ComesFrom :
    (ps : List (RepoId × RepoId)) (waits : List (RepoId × List RepoId))
    (qs : List (RepoId × RepoId))
    → All (λ q. contains_pair ps q ≡ true) qs
    → ComesFrom ps waits
    → ComesFrom ps (add_waits waits qs)
unfolding add_waits
add_waits-ComesFrom ps waits [] h k = k
add_waits-ComesFrom ps waits (q ∷ qs) h k =
    add_waits-ComesFrom ps (add_wait waits q) qs h.1 (add_wait-ComesFrom ps q waits h.0 k)

start-ComesFrom :
    (ps : List (RepoId × RepoId)) (ns : List RepoId) → ComesFrom ps (map (λ n. (n, [])) ns)
unfolding contains_repo
start-ComesFrom ps [] = tt
start-ComesFrom ps (n ∷ ns) = (λ u m. cc, start-ComesFrom ps ns)

contains_pair-In :
    (ps : List (RepoId × RepoId)) (q : RepoId × RepoId) → In q ps → contains_pair ps q ≡ true
unfolding contains_pair
contains_pair-In [] q m = absurd m
contains_pair-In (p ∷ ps) q (inl e) =
    subst (λ r. contains_pair (p ∷ ps) r ≡ true) e
      (ground (arith, (repo_eq_iff p.0 p.0).1 refl, (repo_eq_iff p.1 p.1).1 refl))
contains_pair-In (p ∷ ps) q (inr m) = ground (arith, contains_pair-In ps q m)

pub waits_of-ComesFrom : (g : ChainGraph) → ComesFrom (repo_edges g) (waits_of g)
unfolding waits_of
waits_of-ComesFrom g =
    add_waits-ComesFrom (repo_edges g) (map (λ n. (n, [])) (nodes g)) (repo_edges g)
      (In-All _ (repo_edges g) (contains_pair-In (repo_edges g)))
      (start-ComesFrom (repo_edges g) (nodes g))

-- An edge between the two repositories of a pair.
abbrev pub Joins : RepoId × RepoId → Edge → Type 0
Joins q e = (is_self e ≡ false) × ((repo_eq e.from q.0 ≡ true) × (repo_eq e.to q.1 ≡ true))

insert_pair-same :
    (s : List (RepoId × RepoId)) (p q : RepoId × RepoId)
    → contains_pair s q ≡ false
    → contains_pair (insert_pair s p) q ≡ true
    → (repo_eq p.0 q.0 ≡ true) × (repo_eq p.1 q.1 ≡ true)
unfolding insert_pair
insert_pair-same s p q h k = ground (arith, h, k, contains-place_pair s p q)

contains_pair-nil : (q : RepoId × RepoId) → ¬ (contains_pair [] q ≡ true)
unfolding contains_pair
contains_pair-nil q h = cc

collect_pairs-Joins :
    (s : List (RepoId × RepoId)) (es : List Edge) (q : RepoId × RepoId)
    → contains_pair (collect_pairs s es) q ≡ true
    → (contains_pair s q ≡ true) ⊎ Any (Joins q) es
unfolding collect_pairs
collect_pairs-Joins s [] q h = inl h
collect_pairs-Joins s (e ∷ es) q h =
    let later =
      collect_pairs-Joins (if is_self e then s else insert_pair s (e.from, e.to)) es q h in
    elim later [
      | inr m ↦ inr (inr m)
      | inl m ↦ elim (Bool-cases (is_self e)) [
        | inl self ↦ inl (rw self at m)
        | inr other ↦ inserted_cases s e es q other (rw other at m)
      ]
    ]
  where
    inserted_cases :
        (s : List (RepoId × RepoId)) (e : Edge) (es : List Edge) (q : RepoId × RepoId)
        → is_self e ≡ false
        → contains_pair (insert_pair s (e.from, e.to)) q ≡ true
        → (contains_pair s q ≡ true) ⊎ Any (Joins q) (e ∷ es)
    inserted_cases s e es q other m = elim (Bool-cases (contains_pair s q)) [
      | inl there ↦ inl there
      | inr absent ↦
          let same : (repo_eq e.from q.0 ≡ true) × (repo_eq e.to q.1 ≡ true) =
            insert_pair-same s (e.from, e.to) q absent m in
          inr (inl (other, same))
    ]

pub repo_edges-Joins :
    (g : ChainGraph) (q : RepoId × RepoId)
    → contains_pair (repo_edges g) q ≡ true
    → Any (Joins q) g.edges
unfolding repo_edges
repo_edges-Joins g q h = elim (collect_pairs-Joins [] g.edges q h) [
  | inl none_yet ↦ absurd (contains_pair-nil q none_yet)
  | inr found ↦ found
]
