-- ===== src/Chains/Cycles.antt =====
-- crates/squabble-core/src/chains.rs, `ChainGraph::cycles`: the strongly connected components of
-- more than one repository, by Tarjan's algorithm on the positions of the repositories. A Vec that
-- is indexed is a list. The fuel bounds the depth of the visits by the number of repositories, since
-- each visit indexes one more.
use cicd_squabbler.Prelude.{
  ℕ, zero, suc, ◌+◌, Bool, true, false, ltb, ◌==◌, Option, none, some, if_let, ◌>>=◌, unwrap_or,
  List, [], ◌∷◌, ◌++◌, map, length, get_elem?, if◌then◌else◌,
}
use cicd_squabbler.Chains.{RepoId, repo_eq, repo_lt}
use cicd_squabbler.Chains.Graph.{ChainGraph}
use cicd_squabbler.Chains.Landing.{nodes, repo_edges}
use cicd_squabbler.Chains.Keys.{lex, sort_onto}

pub record Tarjan : Type 0 where
  pub index : List (Option ℕ)
  pub low : List ℕ
  pub on_stack : List Bool
  pub stack : List ℕ
  pub next : ℕ
  pub out : List (List ℕ)

module _ {A : Type 0} where
  -- `v[i] = a`
  unfoldable pub set_at : List A → ℕ → A → List A
  set_at [] i a = []
  set_at (x ∷ xs) zero a = a ∷ xs
  set_at (x ∷ xs) (suc i) a = x ∷ set_at xs i a

  unfoldable pub replicate : ℕ → A → List A
  replicate zero a = []
  replicate (suc n) a = a ∷ replicate n a

-- `self.index[v]`, `self.low[v]`, `self.on_stack[v]` within the bounds.
unfoldable pub index_at : Tarjan → ℕ → Option ℕ
index_at t v = unwrap_or (get_elem? t.index v) none

unfoldable pub low_at : Tarjan → ℕ → ℕ
low_at t v = unwrap_or (get_elem? t.low v) 0

unfoldable pub is_on_stack : Tarjan → ℕ → Bool
is_on_stack t v = unwrap_or (get_elem? t.on_stack v) false

unfoldable pub is_unvisited : Tarjan → ℕ → Bool
is_unvisited t v = elim (get_elem? t.index v) [ some none ↦ true | _ ↦ false ]

unfoldable pub enter : Tarjan → ℕ → Tarjan
unfolding set_at
enter t v = record t {
  index = set_at t.index v (some t.next);
  low = set_at t.low v t.next;
  next = t.next + 1;
  stack = v ∷ t.stack;
  on_stack = set_at t.on_stack v true;
}

unfoldable pub lower : Tarjan → ℕ → ℕ → Tarjan
unfolding set_at low_at
lower t v l = record t { low = set_at t.low v (if ltb l (low_at t v) then l else low_at t v) }

-- The branch of `match self.index[w]` for a repository that was visited.
unfoldable pub see_upstream : Tarjan → ℕ → ℕ → Tarjan
unfolding index_at is_on_stack lower
see_upstream t v w = if is_on_stack t w then if_let (index_at t w) (λ iw. lower t v iw) t else t

-- `while let Some(w) = self.stack.pop()` up to `v`, with the component that was popped so far.
unfoldable pub pop_until : ℕ → List ℕ → List Bool → List ℕ → (List ℕ × List Bool) × List ℕ
unfolding set_at
pop_until v [] on_stack comp = (([], on_stack), comp)
pop_until v (w ∷ stack) on_stack comp =
    let rest = pop_until v stack (set_at on_stack w false) (comp ++ w ∷ []) in
    if w == v then ((stack, set_at on_stack w false), comp ++ w ∷ []) else rest

unfoldable pub close : Tarjan → ℕ → Tarjan
unfolding index_at low_at pop_until
close t v =
    let popped = pop_until v t.stack t.on_stack [] in
    let closed = record t { stack = popped.0.0; on_stack = popped.0.1 } in
    if if_let (index_at t v) (λ i. low_at t v == i) false
    then (if ltb 1 (length popped.1)
        then record closed { out = t.out ++ popped.1 ∷ [] }
        else closed)
    else t

-- The loop over the upstreams of `v`; `visit` is the recursive call.
unfoldable pub each_upstream : (ℕ → Tarjan → Option Tarjan) → ℕ → List ℕ → Tarjan → Option Tarjan
unfolding is_unvisited lower low_at see_upstream
each_upstream visit v [] t = some t
each_upstream visit v (w ∷ ws) t =
    (if is_unvisited t w
      then (visit w t >>= λ after. some (lower after v (low_at after w)))
      else some (see_upstream t v w))
    >>= λ next. each_upstream visit v ws next

unfoldable pub visit : List (List ℕ) → ℕ → ℕ → Tarjan → Option Tarjan
unfolding enter each_upstream close
visit adj zero v t = none
visit adj (suc fuel) v t =
    each_upstream (visit adj fuel) v (unwrap_or (get_elem? adj v) []) (enter t v) >>= λ after.
    some (close after v)

unfoldable pub visit_all : List (List ℕ) → ℕ → List ℕ → Tarjan → Option Tarjan
unfolding visit is_unvisited
visit_all adj fuel [] t = some t
visit_all adj fuel (v ∷ vs) t =
    (if is_unvisited t v then visit adj fuel v t else some t) >>= λ next. visit_all adj fuel vs next

unfoldable pub position : List RepoId → RepoId → ℕ
position [] r = 0
position (x ∷ xs) r = if repo_eq x r then 0 else suc (position xs r)

unfoldable pub push_at : List (List ℕ) → ℕ → ℕ → List (List ℕ)
unfolding set_at
push_at adj v w = set_at adj v (unwrap_or (get_elem? adj v) [] ++ w ∷ [])

unfoldable pub adjacency : List RepoId → List (List ℕ) → List (RepoId × RepoId) → List (List ℕ)
unfolding position push_at
adjacency ns adj [] = adj
adjacency ns adj (p ∷ ps) = adjacency ns (push_at adj (position ns p.0) (position ns p.1)) ps

unfoldable pub range : ℕ → ℕ → List ℕ
range from zero = []
range from (suc n) = from ∷ range (suc from) n

unfoldable pub repos_lt : List RepoId → List RepoId → Bool
repos_lt [] [] = false
repos_lt [] (b ∷ bs) = true
repos_lt (a ∷ rest) [] = false
repos_lt (a ∷ rest) (b ∷ bs) = lex (repo_lt a b) (repo_eq a b) (repos_lt rest bs)

-- `nodes[i].clone()` for each member, in order.
unfoldable pub names_at : List RepoId → List ℕ → List RepoId
names_at ns [] = []
names_at ns (i ∷ is) = if_let (get_elem? ns i) (λ r. r ∷ names_at ns is) (names_at ns is)

unfoldable pub start : ℕ → Tarjan
unfolding replicate
start n = record {
  index = replicate n none;
  low = replicate n 0;
  on_stack = replicate n false;
  stack = [];
  next = 0;
  out = [];
}

unfoldable pub cycles_of : List RepoId → List (RepoId × RepoId) → Option (List (List RepoId))
unfolding visit_all adjacency range start names_at sort_onto repos_lt
cycles_of ns pairs =
    visit_all (adjacency ns (replicate (length ns) []) pairs) (length ns) (range 0 (length ns))
      (start (length ns))
    >>= λ t. some (sort_onto repos_lt [] (map (λ c. sort_onto repo_lt [] (names_at ns c)) t.out))

unfoldable pub cycles : ChainGraph → Option (List (List RepoId))
unfolding cycles_of nodes repo_edges
cycles g = cycles_of (nodes g) (repo_edges g)
