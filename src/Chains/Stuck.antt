-- ===== src/Chains/Stuck.antt =====
-- A graph has no landing order exactly when some of its repositories each wait on another of them.
use cicd_squabbler.Prelude.{
  Option-cases, Any-In, In-Any, In-All, suc, ◌<◌, ◌≡◌, refl, ◌↔◌, true, false, not, Bool-cases, inl,
  inr, none, some, List, [], ◌∷◌, map, filter, is_nil, length, All, Any, In, arith,
}
use mathlib.Core.Path.{subst, sym, ◌∙◌}
use cicd_squabbler.Chains.{RepoId, repo_eq, Edge, is_self}
use cicd_squabbler.Chains.Graph.{ChainGraph, contains_repo, set_insert}
use cicd_squabbler.Chains.Landing.{
  insert_all, edge_nodes, nodes, repo_edges, ready_of, Landing, landed, cyclic, out_of_fuel,
  landing, order_of, landing_order,
}
use cicd_squabbler.Chains.Records.{repo_eq_iff}
use cicd_squabbler.Chains.KeySets.{repo_eq-cong}
use cicd_squabbler.Chains.Sets.{contains-cong}
use cicd_squabbler.Chains.Edges.{nodes-to}
use cicd_squabbler.Chains.Pigeonhole.{
  AreApart, insert_all-AreApart, set_insert-AreApart, length-subset,
}
use cicd_squabbler.Chains.Upstreams.{precedes}
use cicd_squabbler.Chains.Order.{waits_of, keys-waits_of, landing-total, landing_order-precedes}
use cicd_squabbler.Chains.Sources.{waits_of-ComesFrom, repo_edges-Joins}
use cicd_squabbler.Chains.Waiting.{
  contains-here, none_ready-waits, contains-filter, filter-nil, StopsAt, rounds-StopsAt,
}

-- An edge by which `n` waits on a repository of `s`.
abbrev pub WaitsWithin : List RepoId → RepoId → Edge → Type 0
WaitsWithin s n e =
    (is_self e ≡ false) × ((repo_eq e.from n ≡ true) × (contains_repo s e.to ≡ true))

-- Repositories, at least one, each of which waits on another one of them, so that none can land.
pub record IsStuck (g : ChainGraph) (s : List RepoId) : Type 0 where
  pub nonempty : is_nil s ≡ false
  pub waiting : All (λ n. Any (WaitsWithin s n) g.edges) s

contains-member :
    (P : RepoId → Type 0) (s : List RepoId) (n : RepoId)
    → All P s
    → contains_repo s n ≡ true
    → (x : RepoId) × (P x × (repo_eq x n ≡ true))
unfolding contains_repo
contains-member P [] n h k = cc
contains-member P (x ∷ s) n h k = elim (Bool-cases (repo_eq x n)) [
  | inl same ↦ (x, (h.0, same))
  | inr other ↦ contains-member P s n h.1 (ground (arith, other, k))
]

-- In no order does every member of `s` come after another one.
precedes-absurd :
    (s order : List RepoId) (n : RepoId)
    → contains_repo s n ≡ true
    → ((m : RepoId)
        → contains_repo s m ≡ true
        → (u : RepoId) × ((contains_repo s u ≡ true) × (precedes order u m ≡ true)))
    → ⊥
precedes-absurd s [] n h k = let r = k n h in cc r.1.1
precedes-absurd s (x ∷ order) n h k = elim (Bool-cases (contains_repo s x)) [
  | inl there ↦ let r = k x there in ground (arith, r.1.1, (repo_eq_iff x x).1 refl)
  | inr absent ↦ precedes-absurd s order n h (λ m l.
      let r = k m l in (r.0, (r.1.0, ground (arith, r.1.0, r.1.1, absent, contains-cong s x r.0))))
]

repo_eq_trans : (a b c : RepoId) → repo_eq a b ≡ true → repo_eq b c ≡ true → repo_eq a c ≡ true
repo_eq_trans a b c h k = sym (repo_eq-cong a b c k) ∙ h

pub precedes-cong :
    (order : List RepoId) (u a b : RepoId)
    → repo_eq a b ≡ true
    → precedes order u a ≡ precedes order u b
precedes-cong [] u a b h = refl
precedes-cong (x ∷ order) u a b h =
    ground (arith, precedes-cong order u a b h, repo_eq-cong x a b h, contains-cong order a b h)

stuck-none :
    (g : ChainGraph) (s order : List RepoId) → IsStuck g s → ¬ (landing_order g ≡ some order)
stuck-none g [] order stuck h = cc stuck.nonempty
stuck-none g (x ∷ s) order stuck h = precedes-absurd (x ∷ s) order x (contains-here x s) (λ m l.
    let found = contains-member _ (x ∷ s) m stuck.waiting l in
    let e = Any-In _ g.edges found.1.0 in
    let before = landing_order-precedes g order e.0 h e.1.0 e.1.1.0 in
    (
      e.0.to,
      (
        e.1.1.1.1,
        sym (
              precedes-cong order e.0.to e.0.from m
                (repo_eq_trans e.0.from found.0 m e.1.1.1.0 found.1.1))
            ∙ before,
      ),
    ))

module _ (g : ChainGraph) where
  edge_nodes-AreApart : (s : List RepoId) (es : List Edge) → AreApart s → AreApart (edge_nodes s es)
  unfolding edge_nodes
  edge_nodes-AreApart s [] h = h
  edge_nodes-AreApart s (e ∷ es) h =
      edge_nodes-AreApart (set_insert (set_insert s e.from) e.to) es
        (set_insert-AreApart (set_insert s e.from) e.to (set_insert-AreApart s e.from h))

  pub nodes-AreApart : AreApart (nodes g)
  unfolding nodes
  nodes-AreApart =
      edge_nodes-AreApart (insert_all [] (map (λ entry. entry.0) g.scans)) g.edges
        (insert_all-AreApart [] (map (λ entry. entry.0) g.scans) tt)

remaining : ChainGraph → List RepoId → List RepoId
remaining g done = filter (λ n. not (contains_repo done n)) (nodes g)

contains-In : (s : List RepoId) (n : RepoId) → In n s → contains_repo s n ≡ true
unfolding contains_repo
contains-In [] n m = absurd m
contains-In (x ∷ s) n (inl e) = subst (λ y. contains_repo (x ∷ s) y ≡ true) e (contains-here x s)
contains-In (x ∷ s) n (inr m) = ground (arith, contains-In s n m)

remaining-nonempty :
    (g : ChainGraph) (done : List RepoId)
    → length done < length (nodes g)
    → is_nil (remaining g done) ≡ false
unfolding remaining
remaining-nonempty g done h = elim (Bool-cases (is_nil (remaining g done))) [
  | inr e ↦ e
  | inl e ↦
      let all_done =
        length-subset (nodes g) done (nodes-AreApart g) (λ y m. filter-nil done (nodes g) y e m) in
      ground (arith, all_done, h)
]

remaining-WaitsWithin :
    (g : ChainGraph) (done : List RepoId) (n : RepoId)
    → is_nil (ready_of (waits_of g) done) ≡ true
    → In n (remaining g done)
    → Any (WaitsWithin (remaining g done) n) g.edges
unfolding remaining
remaining-WaitsWithin g done n h m =
    let there : (contains_repo (nodes g) n ≡ true) × (contains_repo done n ≡ false) =
      ground (arith, contains-In (remaining g done) n m, contains-filter done (nodes g) n) in
    let key = subst (λ k. contains_repo k n ≡ true) (sym (keys-waits_of g)) there.0 in
    let up =
      none_ready-waits (repo_edges g) (waits_of g) done n (waits_of-ComesFrom g) h key there.1 in
    let found = Any-In _ g.edges (repo_edges-Joins g (n, up.0) up.1.1) in
    let e = found.0 in
    let waits : contains_repo done e.to ≡ false =
      contains-cong done e.to up.0 found.1.1.1.1 ∙ up.1.0 in
    let within : contains_repo (remaining g done) e.to ≡ true =
      contains-filter done (nodes g) e.to ∙ rw (nodes-to g e found.1.0, waits) refl in
    In-Any _ g.edges e found.1.0 (found.1.1.0, (found.1.1.1.0, within))

landing-cyclic : (g : ChainGraph) → landing_order g ≡ none → landing g ≡ cyclic
unfolding landing_order order_of
landing-cyclic g h = order_of-none (landing g) (landing-total g) h
  where
    order_of-none : (l : Landing) → ¬ (l ≡ out_of_fuel) → order_of l ≡ none → l ≡ cyclic
    order_of-none (landed order) k h = cc
    order_of-none cyclic k h = refl
    order_of-none out_of_fuel k h = absurd (k refl)

stops : (g : ChainGraph) → landing g ≡ cyclic → (d : List RepoId) × StopsAt (waits_of g) d
unfolding landing waits_of
stops g h =
    let same = keys-waits_of g in
    rounds-StopsAt (waits_of g) (suc (length (nodes g))) [] [] (rw same h)

-- A graph has no landing order exactly when some of its repositories, at least one, each have an edge
-- to another repository of that kind, apart from edges of a repository on itself.
pub landing_order-eq-none_iff :
    (g : ChainGraph) → (landing_order g ≡ none) ↔ ((s : List RepoId) × IsStuck g s)
landing_order-eq-none_iff g = (
  λ h.
      let d = stops g (landing-cyclic g h) in
      let few = subst (λ k. length d.0 < length k) (keys-waits_of g) d.1.1 in
      (
        remaining g d.0,
        record {
          nonempty = remaining-nonempty g d.0 few;
          waiting = In-All _ (remaining g d.0) (λ n m. remaining-WaitsWithin g d.0 n d.1.0 m);
        },
      ),
  λ stuck. elim (Option-cases (landing_order g)) [
    | inl e ↦ e
    | inr (order, e) ↦ absurd (stuck-none g stuck.0 order stuck.1 e)
  ],
)
