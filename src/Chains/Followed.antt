-- ===== src/Chains/Followed.antt =====
-- The calls of reusable workflows are followed to an end: a workflow is entered once.
use cicd_squabbler.Prelude.{
  ℕ, zero, suc, ◌+◌, ◌≤◌, ◌≡◌, refl, ◌≢◌, Bool, true, false, not, ◌||◌, Bool-cases, Option-cases,
  inl, inr, Option, none, some, List, [], ◌∷◌, ◌++◌, map, filter, length, All, In, All-filter, Str,
  str_eq_iff, if◌then◌else◌, arith,
}
use mathlib.Core.Path.{subst, sym}
use cicd_squabbler.Chains.{RepoId, repo_eq, Edge, is_self}
use cicd_squabbler.Chains.Graph.{ChainGraph}
use cicd_squabbler.Chains.Records.{repo_eq_iff}
use cicd_squabbler.Chains.Confirmed.{reusable_file}
use cicd_squabbler.Chains.Routes.{
  Route, Walk, is_visited, inner_edges, each_inner, follow, follow_all, direct_route, edges_of,
  routes_into,
}

module _ {A : Type 0} where
  abbrev pub count_of : (A → Bool) → List A → ℕ
  count_of p [] = 0
  count_of p (x ∷ xs) = if p x then suc (count_of p xs) else count_of p xs

  count-length : (p : A → Bool) (xs : List A) → count_of p xs ≤ length xs
  count-length p [] = omega arith
  count-length p (x ∷ xs) = ground (arith, count-length p xs)

  count-grows :
      (p q : A → Bool) (xs : List A)
      → ((x : A) → q x ≡ true → p x ≡ true)
      → count_of q xs ≤ count_of p xs
  count-grows p q [] h = omega arith
  count-grows p q (x ∷ xs) h = ground (arith, count-grows p q xs h, h x)

  count-less :
      (p q : A → Bool) (xs : List A) (a : A)
      → ((x : A) → q x ≡ true → p x ≡ true)
      → In a xs
      → p a ≡ true
      → q a ≡ false
      → count_of q xs + 1 ≤ count_of p xs
  count-less p q [] a h m k l = absurd m
  count-less p q (x ∷ xs) a h (inl e) k l =
      let passes : p x ≡ true = subst (λ y. p y ≡ true) (sym e) k in
      let fails : q x ≡ false = subst (λ y. q y ≡ false) (sym e) l in
      ground (arith, passes, fails, count-grows p q xs h)
  count-less p q (x ∷ xs) a h (inr m) k l = ground (arith, count-less p q xs a h m k l, h x)

-- Whether the workflow that an edge calls was not entered yet.
abbrev is_new_file : List (RepoId × Str) → RepoId → Option Str → Bool
is_new_file visited repo none = false
is_new_file visited repo (some file) = not (is_visited visited repo file)

abbrev is_new_call : List (RepoId × Str) → Edge → Bool
is_new_call visited e = is_new_file visited e.to (reusable_file e)

abbrev unentered : ChainGraph → Walk → ℕ
unentered g w = count_of (is_new_call w.0) g.edges

is_new_call-grows :
    (v : RepoId × Str) (visited : List (RepoId × Str)) (e : Edge)
    → is_new_call (v ∷ visited) e ≡ true
    → is_new_call visited e ≡ true
unfolding is_visited
is_new_call-grows v visited e h = elim (Option-cases (reusable_file e)) [
  | inl k ↦ ground (arith, h, k)
  | inr (file, k) ↦ ground (arith, h, k)
]

enter-unentered :
    (g : ChainGraph) (call : Edge) (file : Str) (visited : List (RepoId × Str))
    (routes : List Route)
    → In call g.edges
    → reusable_file call ≡ some file
    → is_visited visited call.to file ≡ false
    → unentered g ((call.to, file) ∷ visited, routes) + 1 ≤ unentered g (visited, routes)
unfolding is_visited
enter-unentered g call file visited routes m h k =
    count-less (is_new_call visited) (is_new_call ((call.to, file) ∷ visited)) g.edges call
      (is_new_call-grows (call.to, file) visited) m (rw (h, k) refl)
      (rw h (ground (arith, (repo_eq_iff call.to call.to).1 refl, (str_eq_iff file file).1 refl)))

-- The walk gives a result after which at most `n` calls are not entered.
abbrev Arrives : ChainGraph → Option Walk → ℕ → Type 0
Arrives g run n = (w : Walk) × ((run ≡ some w) × (unentered g w ≤ n))

each_inner-Arrives :
    (g : ChainGraph) (recur : Edge → Walk → Option Walk) (route : Edge → Route) (fuel : ℕ)
    (es : List Edge) (w : Walk)
    → ((e : Edge) (v : Walk)
        → In e g.edges
        → unentered g v + 1 ≤ fuel
        → Arrives g (recur e v) (unentered g v))
    → All (λ e. In e g.edges) es
    → unentered g w + 1 ≤ fuel
    → Arrives g (each_inner recur route es w) (unentered g w)
unfolding each_inner
each_inner-Arrives g recur route fuel [] w h m k = (w, (refl, omega arith))
each_inner-Arrives g recur route fuel (e ∷ es) w h m k =
    let ran = h e (w.0, w.1 ++ route e ∷ []) m.0 k in
    let rest = each_inner-Arrives g recur route fuel es ran.0 h m.1 (omega (arith, ran.1.1, k)) in
    rw ran.1.0 (rest.0, (rest.1.0, omega (arith, rest.1.1, ran.1.1)))

inner_edges-In :
    (g : ChainGraph) (repo : RepoId) (file : Str)
    → All (λ e. In e g.edges) (inner_edges g repo file)
unfolding inner_edges
inner_edges-In g repo file = All-filter (λ e. In e g.edges) _ g.edges (λ e m k. m)

follow-Arrives :
    (g : ChainGraph) (fuel : ℕ) (via : List RepoId) (call : Edge) (w : Walk)
    → In call g.edges
    → unentered g w + 1 ≤ fuel
    → Arrives g (follow g fuel via call w) (unentered g w)
unfolding follow
follow-Arrives g zero via call w m k = ground (arith, k)
follow-Arrives g (suc fuel) via call w m k = elim (Option-cases (reusable_file call)) [
  | inl e ↦ rw (e, follow) (w, (refl, omega arith))
  | inr (file, e) ↦ elim (Bool-cases (is_self call || is_visited w.0 call.to file)) [
    | inl stop ↦ rw (e, follow, stop) (w, (refl, omega arith))
    | inr go ↦
        let new : is_visited w.0 call.to file ≡ false = ground (arith, go) in
        let less = enter-unentered g call file w.0 w.1 m e new in
        let ran =
          each_inner-Arrives g (follow g fuel (via ++ call.to ∷ [])) _ fuel
            (inner_edges g call.to file) ((call.to, file) ∷ w.0, w.1)
            (follow-Arrives g fuel (via ++ call.to ∷ [])) (inner_edges-In g call.to file)
            (omega (arith, less, k)) in
        rw (e, follow, go) (ran.0, (ran.1.0, omega (arith, ran.1.1, less)))
  ]
]

follow_all-Arrives :
    (g : ChainGraph) (es : List Edge) (w : Walk)
    → All (λ e. In e g.edges) es
    → (v : Walk) × (follow_all g es w ≡ some v)
unfolding follow_all
follow_all-Arrives g [] w m = (w, refl)
follow_all-Arrives g (e ∷ es) w m =
    let enough : unentered g w + 1 ≤ suc (length g.edges) =
      omega (arith, count-length (is_new_call w.0) g.edges) in
    let ran = follow-Arrives g (suc (length g.edges)) [] e w m.0 enough in
    let rest = follow_all-Arrives g es ran.0 m.1 in rw ran.1.0 rest

-- The routes into a repository are found for every graph, one that calls itself in a circle included.
pub routes_into-total : (g : ChainGraph) (consumer : RepoId) → routes_into g consumer ≢ none
unfolding routes_into edges_of
routes_into-total g consumer h =
    let es = filter (λ e. repo_eq e.from consumer) g.edges in
    let ran =
      follow_all-Arrives g es ([], map direct_route es)
        (All-filter (λ e. In e g.edges) _ g.edges (λ e m k. m)) in
    cc (h, ran.1)
