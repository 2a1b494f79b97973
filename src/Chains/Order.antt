-- ===== src/Chains/Order.antt =====
-- The landing order of a graph holds every repository, and each upstream before its consumers.
use cicd_squabbler.Prelude.{
  ℕ, zero, suc, ◌≡◌, refl, ◌≢◌, true, false, leb, Bool-cases, inl, inr, some, List, [], ◌∷◌, ◌++◌,
  map, length, All, In, arith,
}
use mathlib.Core.Path.{subst, sym, ◌∙◌}
use cicd_squabbler.Chains.{RepoId, Edge, is_self}
use cicd_squabbler.Chains.Edges.{nodes-from, edge-WaitsOn}
use cicd_squabbler.Chains.Graph.{ChainGraph, contains_repo}
use cicd_squabbler.Chains.Landing.{
  insert_all, nodes, repo_edges, add_wait, add_waits, ready_of, Landing, landed, out_of_fuel,
  rounds, landing, order_of, landing_order,
}
use cicd_squabbler.Chains.Sets.{contains-insert_all}
use cicd_squabbler.Chains.Pigeonhole.{AreApart, insert_all-AreApart, contains-all}
use cicd_squabbler.Chains.Upstreams.{
  precedes, WaitsOn, same-step, rounds-IsOrdered, rounds-fuel, add_waits-All,
}

abbrev pub keys : List (RepoId × List RepoId) → List RepoId
keys waits = map (λ entry. entry.0) waits

keys-add_wait :
    (waits : List (RepoId × List RepoId)) (p : RepoId × RepoId)
    → keys (add_wait waits p) ≡ keys waits
unfolding add_wait
keys-add_wait [] p = refl
keys-add_wait (entry ∷ waits) p = ground (arith, keys-add_wait waits p)

keys-add_waits :
    (waits : List (RepoId × List RepoId)) (ps : List (RepoId × RepoId))
    → keys (add_waits waits ps) ≡ keys waits
unfolding add_waits
keys-add_waits waits [] = refl
keys-add_waits waits (p ∷ ps) =
    ground (arith, keys-add_waits (add_wait waits p) ps, keys-add_wait waits p)

keys-start : (ns : List RepoId) → keys (map (λ n. (n, [])) ns) ≡ ns
keys-start [] = refl
keys-start (n ∷ ns) = ground (arith, keys-start ns)

pub contains-ready_of :
    (waits : List (RepoId × List RepoId)) (done : List RepoId) (y : RepoId)
    → contains_repo (ready_of waits done) y ≡ true
    → contains_repo (keys waits) y ≡ true
unfolding ready_of contains_repo
contains-ready_of [] done y h = h
contains-ready_of (entry ∷ waits) done y h = ground (arith, contains-ready_of waits done y)

module _ (waits : List (RepoId × List RepoId)) where
  -- `done` holds what `order` holds, once each, and nothing but repositories of the graph.
  abbrev pub IsDone : List RepoId → List RepoId → Type 0
  IsDone done order =
      AreApart done
      × (((y : RepoId) → contains_repo done y ≡ contains_repo order y)
          × ((y : RepoId) → contains_repo done y ≡ true → contains_repo (keys waits) y ≡ true))

  pub IsDone-step :
      (done order : List RepoId)
      → IsDone done order
      → IsDone (insert_all done (ready_of waits done)) (order ++ ready_of waits done)
  IsDone-step done order (apart, (same, within)) = (
    insert_all-AreApart done (ready_of waits done) apart,
    (
      same-step waits done order same,
      λ y h. ground (
        arith,
        within y,
        h,
        contains-insert_all done (ready_of waits done) y,
        contains-ready_of waits done y,
      ),
    ),
  )

  rounds_complete :
      (fuel : ℕ) (done order final : List RepoId)
      → IsDone done order
      → rounds fuel (length (keys waits)) waits done order ≡ landed final
      → (n : RepoId) → contains_repo (keys waits) n ≡ true
      → contains_repo final n ≡ true
  unfolding rounds
  rounds_complete zero done order final inv e n m = cc
  rounds_complete (suc fuel) done order final inv e n m =
      let ready = ready_of waits done in
      elim (Bool-cases (leb (length (keys waits)) (length done))) [
        | inl enough ↦
            let same_order : order ≡ final = ground (arith, enough, e) in
            let there = contains-all done (keys waits) inv.0 inv.1.1 (ground (arith, enough)) n m in
            subst (λ o. contains_repo o n ≡ true) same_order (sym (inv.1.0 n) ∙ there)
        | inr more ↦
            let rest : rounds fuel (length (keys waits)) waits (insert_all done ready)
                  (order ++ ready)
                ≡ landed final =
              ground (arith, more, e) in
            rounds_complete fuel (insert_all done ready) (order ++ ready) final
              (IsDone-step done order inv) rest n m
      ]

unfoldable pub waits_of : ChainGraph → List (RepoId × List RepoId)
waits_of g = add_waits (map (λ n. (n, [])) (nodes g)) (repo_edges g)

pub keys-waits_of : (g : ChainGraph) → keys (waits_of g) ≡ nodes g
unfolding waits_of
keys-waits_of g =
    keys-add_waits (map (λ n. (n, [])) (nodes g)) (repo_edges g) ∙ keys-start (nodes g)

pub landing-landed :
    (g : ChainGraph) (order : List RepoId)
    → landing_order g ≡ some order
    → rounds (suc (length (nodes g))) (length (nodes g)) (waits_of g) [] [] ≡ landed order
unfolding landing_order landing order_of waits_of
landing-landed g order e = order_of-landed _ order e
  where
    order_of-landed :
        (l : Landing) (order : List RepoId) → order_of l ≡ some order → l ≡ landed order
    order_of-landed l order h = ground arith

pub contains-nil : (y : RepoId) → contains_repo [] y ≢ true
unfolding contains_repo
contains-nil y h = cc

-- Where the graph has a landing order, every repository that was scanned or that an edge starts from
-- or points to is in it.
pub landing_order_complete :
    (g : ChainGraph) (order : List RepoId)
    → landing_order g ≡ some order
    → (n : RepoId) → contains_repo (nodes g) n ≡ true
    → contains_repo order n ≡ true
landing_order_complete g order e n m =
    let start : IsDone (waits_of g) [] [] = (tt, (λ y. refl, λ y h. absurd (contains-nil y h))) in
    let ran =
      subst (λ k. rounds (suc (length (nodes g))) (length k) (waits_of g) [] [] ≡ landed order)
        (sym (keys-waits_of g)) (landing-landed g order e) in
    rounds_complete (waits_of g) (suc (length (nodes g))) [] [] order start ran n
      (subst (λ k. contains_repo k n ≡ true) (sym (keys-waits_of g)) m)

-- The loop always ends: with one round more than there are repositories, it lands them or finds a
-- round in which none is ready.
pub landing-total : (g : ChainGraph) → landing g ≢ out_of_fuel
unfolding landing waits_of
landing-total g = rounds-fuel (waits_of g) (length (nodes g)) (length (nodes g)) [] [] (omega arith)

waits_of-WaitsOn : (g : ChainGraph) → All (λ p. WaitsOn (waits_of g) p.0 p.1) (repo_edges g)
unfolding waits_of
waits_of-WaitsOn g = add_waits-All (map (λ n. (n, [])) (nodes g)) (repo_edges g)

-- In a landing order, the upstream of each edge of the graph stands before the first place where the
-- consumer stands, save for an edge of a repository on itself.
pub landing_order-precedes :
    (g : ChainGraph) (order : List RepoId) (e : Edge)
    → landing_order g ≡ some order
    → In e g.edges
    → is_self e ≡ false
    → precedes order e.to e.from ≡ true
landing_order-precedes g order e h m k =
    rounds-IsOrdered (waits_of g) (suc (length (nodes g))) (length (nodes g)) [] [] order
      (λ y. refl) (λ n u w c. absurd (contains-nil n c)) (landing-landed g order h) e.from e.to
      (edge-WaitsOn g (waits_of g) e (waits_of-WaitsOn g) m k)
      (landing_order_complete g order h e.from (nodes-from g e m))
