-- ===== src/Chains/Ready.antt =====
-- A landing order names each repository once, and its upstreams before it.
use cicd_squabbler.Prelude.{
  All-map, Any-In, ℕ, zero, suc, ◌≡◌, refl, true, false, ◌||◌, leb, Bool-cases, inl, inr, some,
  List, [], ◌∷◌, ◌++◌, length, All, arith, sym, ◌∙◌,
}
use mathlib.Core.Path.{subst}
use cicd_squabbler.Chains.{RepoId, repo_eq}
use cicd_squabbler.Chains.Graph.{ChainGraph, contains_repo}
use cicd_squabbler.Chains.Records.{repo_eq_iff}
use cicd_squabbler.Chains.KeySets.{repo_eq-cong}
use cicd_squabbler.Chains.Sets.{contains-cong, contains-append}
use cicd_squabbler.Chains.Landing.{
  insert_all, contains_pair, nodes, repo_edges, ready_of, landed, rounds, landing_order,
}
use cicd_squabbler.Chains.Pigeonhole.{AreApart}
use cicd_squabbler.Chains.Upstreams.{precedes, ready_of-new}
use cicd_squabbler.Chains.Order.{
  keys, contains-ready_of, IsDone, IsDone-step, waits_of, keys-waits_of, landing-landed,
  contains-nil, landing_order-precedes,
}
use cicd_squabbler.Chains.Sources.{repo_edges-Joins}
use cicd_squabbler.Chains.Stuck.{precedes-cong, nodes-AreApart}
use cicd_squabbler.Chains.Weighed.{AreReady}

not-In-apart :
    (s t : List RepoId) (x : RepoId)
    → All (λ r. contains_repo (x ∷ s) r ≡ false) t
    → contains_repo t x ≡ false
unfolding contains_repo
not-In-apart s [] x h = refl
not-In-apart s (r ∷ t) x h =
    ground (arith, h.0, not-In-apart s t x h.1, repo_eq_iff x r, repo_eq_iff r x)

not-In-tail :
    (s t : List RepoId) (x : RepoId)
    → All (λ r. contains_repo (x ∷ s) r ≡ false) t
    → All (λ r. contains_repo s r ≡ false) t
unfolding contains_repo
not-In-tail s [] x h = tt
not-In-tail s (r ∷ t) x h = (ground (arith, h.0), not-In-tail s t x h.1)

append-AreApart :
    (s t : List RepoId)
    → AreApart s
    → AreApart t
    → All (λ r. contains_repo s r ≡ false) t
    → AreApart (s ++ t)
append-AreApart [] t h k l = k
append-AreApart (x ∷ s) t h k l = (
  contains-append s t x ∙ rw (h.0, not-In-apart s t x l) refl,
  append-AreApart s t h.1 k (not-In-tail s t x l),
)

ready_of-AreApart :
    (waits : List (RepoId × List RepoId)) (done : List RepoId)
    → AreApart (keys waits)
    → AreApart (ready_of waits done)
unfolding ready_of
ready_of-AreApart [] done h = tt
ready_of-AreApart (entry ∷ waits) done h =
    let rest = ready_of-AreApart waits done h.1 in
    ground (arith, rest, h.0, contains-ready_of waits done entry.0)

ready_of-new_of :
    (waits : List (RepoId × List RepoId)) (done order : List RepoId)
    → ((y : RepoId) → contains_repo done y ≡ contains_repo order y)
    → All (λ r. contains_repo order r ≡ false) (ready_of waits done)
ready_of-new_of waits done order same =
    All-map _ _ (ready_of waits done) (λ r h. sym (same r) ∙ h) (ready_of-new waits waits done)

module _ (waits : List (RepoId × List RepoId)) (apart : AreApart (keys waits)) where
  -- A landing order names nothing twice, and nothing but repositories of the graph.
  rounds-AreApart :
      (fuel total : ℕ) (done order final : List RepoId)
      → IsDone waits done order
      → AreApart order
      → rounds fuel total waits done order ≡ landed final
      → AreApart final
        × ((y : RepoId) → contains_repo final y ≡ true → contains_repo (keys waits) y ≡ true)
  unfolding rounds
  rounds-AreApart zero total done order final inv h e = cc
  rounds-AreApart (suc fuel) total done order final inv h e =
      let ready = ready_of waits done in
      elim (Bool-cases (leb total (length done))) [
        | inl enough ↦
            let same_order : order ≡ final = ground (arith, enough, e) in
            subst
              (λ o.
                AreApart o
                × ((y : RepoId) → contains_repo o y ≡ true → contains_repo (keys waits) y ≡ true))
              same_order (h, λ y m. inv.1.1 y (inv.1.0 y ∙ m))
        | inr more ↦
            let rest : rounds fuel total waits (insert_all done ready) (order ++ ready)
                ≡ landed final =
              ground (arith, more, e) in
            rounds-AreApart fuel total (insert_all done ready) (order ++ ready) final
              (IsDone-step waits done order inv)
              (append-AreApart order ready h (ready_of-AreApart waits done apart)
                (ready_of-new_of waits done order inv.1.0))
              rest
      ]

pub landing_order-AreApart :
    (g : ChainGraph) (order : List RepoId)
    → landing_order g ≡ some order
    → AreApart order
      × ((y : RepoId) → contains_repo order y ≡ true → contains_repo (nodes g) y ≡ true)
landing_order-AreApart g order e =
    let same = keys-waits_of g in
    let start : IsDone (waits_of g) [] [] = (tt, (λ y. refl, λ y h. absurd (contains-nil y h))) in
    let found =
      rounds-AreApart (waits_of g) (subst AreApart (sym same) (nodes-AreApart g))
        (suc (length (nodes g))) (length (nodes g)) [] [] order start tt
        (landing-landed g order e) in
    (found.0, λ y h. subst (λ k. contains_repo k y ≡ true) same (found.1 y h))

-- Every upstream of a repository that is left is done, or stands before it.
abbrev IsAhead : ChainGraph → List RepoId → List RepoId → Type 0
IsAhead g done order =
    (n u : RepoId)
    → contains_repo order n ≡ true
    → contains_pair (repo_edges g) (n, u) ≡ true
    → (contains_repo done u || precedes order u n) ≡ true

IsAhead-next :
    (g : ChainGraph) (done order : List RepoId) (x : RepoId)
    → contains_repo order x ≡ false
    → IsAhead g done (x ∷ order)
    → IsAhead g (x ∷ done) order
unfolding contains_repo
IsAhead-next g done order x new h n u m p =
    ground (arith, h n u (ground (arith, m)) p, m, new, contains-cong order x n)

pub landing-AreReady :
    (g : ChainGraph) (done order : List RepoId)
    → AreApart order
    → ((y : RepoId) → contains_repo order y ≡ true → contains_repo done y ≡ false)
    → IsAhead g done order
    → AreReady (repo_edges g) done order
unfolding contains_repo
landing-AreReady g done [] h k l = tt
landing-AreReady g done (x ∷ order) h k l =
    let self = (repo_eq_iff x x).1 refl in
    (
      k x (ground (arith, self)),
      (
        λ u p. ground (arith, l x u (ground (arith, self)) p, self),
        landing-AreReady g (x ∷ done) order h.1
            (λ y m. ground (arith, k y, m, h.0, contains-cong order x y))
            (IsAhead-next g done order x h.0 l),
      ),
    )

precedes-left :
    (order : List RepoId) (a b n : RepoId)
    → repo_eq a b ≡ true
    → precedes order a n ≡ precedes order b n
precedes-left [] a b n h = refl
precedes-left (x ∷ order) a b n h =
    ground (arith, precedes-left order a b n h, repo_eq-cong x a b h)

pub landing-IsAhead :
    (g : ChainGraph) (order : List RepoId) → landing_order g ≡ some order → IsAhead g [] order
landing-IsAhead g order e n u m p =
    let found = Any-In _ g.edges (repo_edges-Joins g (n, u) p) in
    let d = found.0 in
    let before = landing_order-precedes g order d e found.1.0 found.1.1.0 in
    let at_n = sym (precedes-cong order d.to d.from n found.1.1.1.0) ∙ before in
    let at_u = sym (precedes-left order d.to u n found.1.1.1.1) ∙ at_n in ground (arith, at_u)
