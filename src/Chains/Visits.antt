-- ===== src/Chains/Visits.antt =====
-- The search for cycles always ends: each visit indexes one repository more.
use cicd_squabbler.Prelude.{
  ℕ, zero, suc, ◌+◌, ◌≤◌, ◌≡◌, refl, ◌≢◌, true, Bool-cases, inl, inr, Option, none, some, unwrap_or,
  List, [], ◌∷◌, length, get_elem?, arith,
}
use cicd_squabbler.Chains.Graph.{ChainGraph}
use cicd_squabbler.Chains.Landing.{nodes, repo_edges}
use cicd_squabbler.Chains.Cycles.{
  Tarjan, set_at, replicate, low_at, is_unvisited, enter, lower, see_upstream, close, each_upstream,
  visit, visit_all, adjacency, range, start, cycles_of, cycles,
}

abbrev unvisited : List (Option ℕ) → ℕ
unvisited [] = 0
unvisited (none ∷ index) = suc (unvisited index)
unvisited (some i ∷ index) = unvisited index

unvisited-set_at :
    (index : List (Option ℕ)) (v i : ℕ)
    → get_elem? index v ≡ some none
    → unvisited (set_at index v (some i)) + 1 ≡ unvisited index
unfolding set_at
unvisited-set_at [] v i h = cc
unvisited-set_at (none ∷ index) zero i h = omega arith
unvisited-set_at (some j ∷ index) zero i h = cc
unvisited-set_at (none ∷ index) (suc v) i h = omega (arith, unvisited-set_at index v i h)
unvisited-set_at (some j ∷ index) (suc v) i h = unvisited-set_at index v i h

unvisited-replicate : (n : ℕ) → unvisited (replicate n none) ≡ n
unfolding replicate
unvisited-replicate zero = refl
unvisited-replicate (suc n) = omega (arith, unvisited-replicate n)

is_unvisited-get : (t : Tarjan) (v : ℕ) → is_unvisited t v ≡ true → get_elem? t.index v ≡ some none
unfolding is_unvisited
is_unvisited-get t v h = ground (arith, h)

enter-unvisited :
    (t : Tarjan) (v : ℕ)
    → is_unvisited t v ≡ true
    → unvisited (enter t v).index + 1 ≡ unvisited t.index
unfolding enter
enter-unvisited t v h = unvisited-set_at t.index v t.next (is_unvisited-get t v h)

lower-index : (t : Tarjan) (v l : ℕ) → (lower t v l).index ≡ t.index
unfolding lower
lower-index t v l = refl

see_upstream-index : (t : Tarjan) (v w : ℕ) → (see_upstream t v w).index ≡ t.index
unfolding see_upstream lower
see_upstream-index t v w = ground arith

close-index : (t : Tarjan) (v : ℕ) → (close t v).index ≡ t.index
unfolding close
close-index t v = ground arith

-- The run gives a state in which at most `n` repositories are unvisited.
abbrev Ends : Option Tarjan → ℕ → Type 0
Ends run n = (t : Tarjan) × ((run ≡ some t) × (unvisited t.index ≤ n))

each_upstream-Ends :
    (recur : ℕ → Tarjan → Option Tarjan) (fuel v : ℕ) (ws : List ℕ) (t : Tarjan)
    → ((w : ℕ) (s : Tarjan)
        → is_unvisited s w ≡ true
        → unvisited s.index ≤ fuel
        → Ends (recur w s) (unvisited s.index))
    → unvisited t.index ≤ fuel
    → Ends (each_upstream recur v ws t) (unvisited t.index)
unfolding each_upstream
each_upstream-Ends recur fuel v [] t h k = (t, (refl, omega arith))
each_upstream-Ends recur fuel v (w ∷ ws) t h k = elim (Bool-cases (is_unvisited t w)) [
  | inl new ↦
      let ran = h w t new k in
      let next = lower ran.0 v (low_at ran.0 w) in
      let same : next.index ≡ ran.0.index = lower-index ran.0 v (low_at ran.0 w) in
      let few : unvisited next.index ≤ unvisited t.index = rw same ran.1.1 in
      let rest = each_upstream-Ends recur fuel v ws next h (omega (arith, few, k)) in
      rw (new, ran.1.0) (rest.0, (rest.1.0, omega (arith, rest.1.1, few)))
  | inr old ↦
      let same = see_upstream-index t v w in
      let few : unvisited (see_upstream t v w).index ≤ unvisited t.index = rw same (omega arith) in
      let rest =
        each_upstream-Ends recur fuel v ws (see_upstream t v w) h (omega (arith, few, k)) in
      rw old (rest.0, (rest.1.0, omega (arith, rest.1.1, few)))
]

visit-Ends :
    (adj : List (List ℕ)) (fuel v : ℕ) (t : Tarjan)
    → is_unvisited t v ≡ true
    → unvisited t.index ≤ fuel
    → Ends (visit adj fuel v t) (unvisited t.index)
unfolding visit
visit-Ends adj zero v t h k = let less = enter-unvisited t v h in ground (arith, less, k)
visit-Ends adj (suc fuel) v t h k =
    let less = enter-unvisited t v h in
    let ran =
      each_upstream-Ends (visit adj fuel) fuel v (unwrap_or (get_elem? adj v) []) (enter t v)
        (visit-Ends adj fuel) (omega (arith, less, k)) in
    rw (ran.1.0) (close ran.0 v, (refl, rw (close-index ran.0 v) (omega (arith, ran.1.1, less))))

visit_all-Ends :
    (adj : List (List ℕ)) (fuel : ℕ) (vs : List ℕ) (t : Tarjan)
    → unvisited t.index ≤ fuel
    → Ends (visit_all adj fuel vs t) (unvisited t.index)
unfolding visit_all
visit_all-Ends adj fuel [] t k = (t, (refl, omega arith))
visit_all-Ends adj fuel (v ∷ vs) t k = elim (Bool-cases (is_unvisited t v)) [
  | inl new ↦
      let ran = visit-Ends adj fuel v t new k in
      let rest = visit_all-Ends adj fuel vs ran.0 (omega (arith, ran.1.1, k)) in
      rw (new, ran.1.0) (rest.0, (rest.1.0, omega (arith, rest.1.1, ran.1.1)))
  | inr old ↦ rw old (visit_all-Ends adj fuel vs t k)
]

-- The search for cycles gives a result for every graph: the visits never nest deeper than there are
-- repositories.
pub cycles-total : (g : ChainGraph) → cycles g ≢ none
unfolding cycles cycles_of start
cycles-total g h =
    let n = length (nodes g) in
    let adj = adjacency (nodes g) (replicate n []) (repo_edges g) in
    let few : unvisited (start n).index ≤ n = rw (unvisited-replicate n) (omega arith) in
    let ran = visit_all-Ends adj n (range 0 n) (start n) few in cc (h, ran.1.0)
