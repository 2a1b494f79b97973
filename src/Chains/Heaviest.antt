-- ===== src/Chains/Heaviest.antt =====
-- The critical path is the heaviest chain of the graph.
use cicd_squabbler.Prelude.{
  ap, ℕ, ◌≤◌, ◌≡◌, refl, ◌⊎◌, true, false, ◌||◌, Bool-cases, Option-cases, inl, inr, some, is_some,
  ◌>>=◌, List, [], ◌∷◌, length, All, arith, sym, ◌∙◌,
}
use mathlib.Core.Path.{subst}
use cicd_squabbler.Chains.{RepoId, repo_eq}
use cicd_squabbler.Chains.Graph.{ChainGraph, get, contains_repo}
use cicd_squabbler.Chains.Landing.{nodes, repo_edges, landing_order}
use cicd_squabbler.Chains.Order.{landing_order_complete}
use cicd_squabbler.Chains.Critical.{
  Best, is_greater, max_from, max_entry, path_of, weigh, critical_path,
}
use cicd_squabbler.Chains.Chain.{onto, Linked, chain_weight, Trace-Linked, walk_back-Trace}
use cicd_squabbler.Chains.Weighed.{IsWeighed, weigh-IsWeighed}
use cicd_squabbler.Chains.Ready.{landing_order-AreApart, landing-AreReady, landing-IsAhead}

-- A chain of repositories of the graph, the last consumer first: each has an edge to the next.
abbrev pub IsChain : ChainGraph → List RepoId → Type 0
IsChain g [] = ⊥
IsChain g (n ∷ c) = (contains_repo (nodes g) n ≡ true) × Linked (repo_edges g) (n ∷ c)

max_from-All :
    (P : RepoId × Best → Type 0) (a : RepoId × Best) (rest : List (RepoId × Best))
    → P a
    → All P rest
    → P (max_from a rest)
unfolding max_from
max_from-All P a [] h k = h
max_from-All P a (b ∷ rest) h k = elim (Bool-cases (is_greater a b)) [
  | inl e ↦ rw e (max_from-All P a rest h k.1)
  | inr e ↦ rw e (max_from-All P b rest k.0 k.1)
]

is_greater-weight :
    (a b : RepoId × Best)
    → ((is_greater a b ≡ true) × (b.1.0 ≤ a.1.0)) ⊎ ((is_greater a b ≡ false) × (a.1.0 ≤ b.1.0))
unfolding is_greater
is_greater-weight a b = elim (Bool-cases (is_greater a b)) [
  | inl e ↦ inl (e, ground (arith, e))
  | inr e ↦ inr (e, ground (arith, e))
]

max_from-start : (a : RepoId × Best) (rest : List (RepoId × Best)) → a.1.0 ≤ (max_from a rest).1.0
unfolding max_from
max_from-start a [] = omega arith
max_from-start a (b ∷ rest) = elim (is_greater-weight a b) [
  | inl (e, less) ↦ rw (max_from, e) (max_from-start a rest)
  | inr (e, less) ↦ rw (max_from, e) (omega (arith, less, max_from-start b rest))
]

max_from-upper :
    (a : RepoId × Best) (rest : List (RepoId × Best)) (w : ℕ)
    → (max_from a rest).1.0 ≤ w
    → All (λ entry. entry.1.0 ≤ w) rest
unfolding max_from
max_from-upper a [] w h = tt
max_from-upper a (b ∷ rest) w h = elim (is_greater-weight a b) [
  | inl (e, less) ↦
      let below : (max_from a rest).1.0 ≤ w = rw (max_from, e) at h in
      (omega (arith, less, below, max_from-start a rest), max_from-upper a rest w below)
  | inr (e, less) ↦
      let below : (max_from b rest).1.0 ≤ w = rw (max_from, e) at h in
      (omega (arith, below, max_from-start b rest), max_from-upper b rest w below)
]

get-All :
    (P : Best → Type 0) (best : List (RepoId × Best)) (m : RepoId) (b : Best)
    → All (λ entry. P entry.1) best
    → get best m ≡ some b
    → P b
unfolding get
get-All P [] m b h k = cc
get-All P (entry ∷ best) m b h k = elim (Bool-cases (repo_eq entry.0 m)) [
  | inl e ↦ let same : entry.1 ≡ b = ground (arith, k, e) in subst P same h.0
  | inr e ↦ get-All P best m b h.1 (ground (arith, k, e))
]

module _ (g : ChainGraph) (weight : RepoId → ℕ)
    (same_weight : (a b : RepoId) → repo_eq a b ≡ true → weight a ≡ weight b) (done : List RepoId)
    (a : RepoId × Best) (rest : List (RepoId × Best))
    (inv : IsWeighed (repo_edges g) weight same_weight done (a ∷ rest))
    (all_done : (y : RepoId) → contains_repo done y ≡ contains_repo (nodes g) y) where
  chain-upper : (d : List RepoId) → IsChain g d → chain_weight weight d ≤ (max_from a rest).1.0
  chain-upper [] h = absurd h
  chain-upper (m ∷ d) h = elim (Option-cases (get (a ∷ rest) m)) [
    | inl e ↦
        let k : true ≡ false = sym (all_done m ∙ h.0) ∙ sym (inv.known m) ∙ ap is_some e in cc k
    | inr (b, e) ↦
        let below = inv.upper m b d e h.1 in
        let top =
          get-All (λ x. x.0 ≤ (max_from a rest).1.0) (a ∷ rest) m b
            (max_from-start a rest, max_from-upper a rest (max_from a rest).1.0 (omega arith)) e in
        omega (arith, below, top)
  ]

  path_of-heaviest :
      (c : List RepoId) × ((path_of (a ∷ rest) ≡ some (chain_weight weight c, onto c []))
        × (IsChain g c
            × ((d : List RepoId) → IsChain g d → chain_weight weight d ≤ chain_weight weight c)))
  unfolding path_of max_entry
  path_of-heaviest =
      let r = max_from a rest in
      let got =
        max_from-All (λ entry. get (a ∷ rest) entry.0 ≡ some entry.1) a rest inv.entries.0
          inv.entries.1 in
      let t = inv.traced r.0 r.1 got in
      let linked = Trace-Linked (repo_edges g) weight (a ∷ rest) r.0 r.1.0 t.0 t.1.0 in
      let walked =
        walk_back-Trace (repo_edges g) weight (a ∷ rest) r.0 r.1.0 t.0 (length (a ∷ rest)) [] t.1.0
          t.1.1 in
      let path =
        ap (λ w. w >>= λ path. some (r.1.0, path)) walked
        ∙ ap (λ w. some (w, onto (r.0 ∷ t.0) [])) (sym linked.1) in
      let there = sym (all_done r.0) ∙ sym (inv.known r.0) ∙ ap is_some got in
      (
        r.0 ∷ t.0,
        (
          path,
          (
            (there, linked.0),
            λ d h. subst (λ w. chain_weight weight d ≤ w) (sym linked.1) (chain-upper d h),
          ),
        ),
      )

none-done : (y : RepoId) → contains_repo [] y ≡ false
unfolding contains_repo
none-done y = refl

nothing-IsWeighed :
    (g : ChainGraph) (weight : RepoId → ℕ)
    (same_weight : (a b : RepoId) → repo_eq a b ≡ true → weight a ≡ weight b)
    → IsWeighed (repo_edges g) weight same_weight [] []
unfolding get
nothing-IsWeighed g weight same_weight = record {
  known = λ n. sym (none-done n);
  upper = λ n b c h. cc h;
  traced = λ n b h. cc h;
  entries = tt;
}

-- `critical_path` gives a heaviest chain: it has a result wherever the graph has a repository and a
-- landing order, namely a chain of repositories, upstream first, each with an edge to the one before
-- it, with its weight, and no chain of the graph weighs more. Weights add up within 64 bits, and the
-- weight of a repository does not depend on the case of its name.
pub critical_path-heaviest :
    (g : ChainGraph) (weight : RepoId → ℕ) (order : List RepoId) (n : RepoId)
    → ((a b : RepoId) → repo_eq a b ≡ true → weight a ≡ weight b)
    → landing_order g ≡ some order
    → contains_repo (nodes g) n ≡ true
    → (c : List RepoId) × ((critical_path g weight ≡ some (chain_weight weight c, onto c []))
        × (IsChain g c
            × ((d : List RepoId) → IsChain g d → chain_weight weight d ≤ chain_weight weight c)))
unfolding critical_path
critical_path-heaviest g weight order n same_weight e m =
    let facts = landing_order-AreApart g order e in
    let ready =
      landing-AreReady g [] order facts.0 (λ y h. none-done y) (landing-IsAhead g order e) in
    let run =
      weigh-IsWeighed (repo_edges g) weight same_weight [] [] order
        (nothing-IsWeighed g weight same_weight) ready in
    let same : (y : RepoId) → contains_repo run.0 y ≡ contains_repo (nodes g) y =
      λ y. run.1.1 y ∙ done_nodes y in
    rw e (heaviest_of (weigh weight (repo_edges g) [] order) run.0 run.1.0 same)
  where
    done_nodes :
        (y : RepoId) → (contains_repo [] y || contains_repo order y) ≡ contains_repo (nodes g) y
    done_nodes y =
        let facts = landing_order-AreApart g order e in
        ground (arith, none-done y, facts.1 y, landing_order_complete g order e y)

    heaviest_of :
        (best : List (RepoId × Best)) (done : List RepoId)
        → IsWeighed (repo_edges g) weight same_weight done best
        → ((y : RepoId) → contains_repo done y ≡ contains_repo (nodes g) y)
        → (c : List RepoId) × ((path_of best ≡ some (chain_weight weight c, onto c []))
            × (IsChain g c
                × ((d : List RepoId)
                    → IsChain g d
                    → chain_weight weight d ≤ chain_weight weight c)))
    heaviest_of [] done inv same = let k = sym (same n ∙ m) ∙ sym (inv.known n) in cc k
    heaviest_of (a ∷ rest) done inv same =
        path_of-heaviest g weight same_weight done a rest inv same
