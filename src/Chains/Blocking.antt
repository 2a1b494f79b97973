-- ===== src/Chains/Blocking.antt =====
-- When a report blocks: the findings of each group, and the references that cause them.
use cicd_squabbler.Prelude.{
  ◌≡◌, refl, Bool, true, false, not, ◌&&◌, ◌||◌, Option-cases, inl, inr, some, is_some, List, [],
  ◌∷◌, ◌++◌, map, any, filter, is_nil, length, ltb, is_nil-filter, any-append, arith, ◌∙◌,
}
use cicd_squabbler.Chains.{RepoId, repo_eq, repo_lt, Edge, is_immutable, is_self}
use cicd_squabbler.Chains.Graph.{ChainGraph, get, is_scanned, moved_to, canonical_of}
use cicd_squabbler.Chains.Keys.{contains_key, edge_eq, edge_lt}
use cicd_squabbler.Chains.Confirmed.{confirmed_edges}
use cicd_squabbler.Chains.Cycles.{cycles}
use cicd_squabbler.Chains.Routes.{Route, routes_into}
use cicd_squabbler.Chains.Followed.{routes_into-total}
use cicd_squabbler.Chains.Findings.{
  Finding, cycle, dead_upstream, pin_skew, mutable_pins, severity, is_blocking,
}
use cicd_squabbler.Chains.Analyse.{
  entry_update, group_onto, is_not_found, sort_edges, dead_findings, Moved, add_consumer,
  moved_onto, moved_finding, scanned_edges, moved_findings, consumers_of, diamonds_in,
  diamond_findings, skew_onto, pin_use, skew_findings, mutable_findings, all_findings,
}
use cicd_squabbler.Chains.Sorted.{any-entry_update, is_nil-group_onto, is_nil-sort_onto}

module _ {A : Type 0} (f : A → Finding) where
  any-blocking :
      (xs : List A)
      → ((x : A) → is_blocking (f x) ≡ true)
      → any is_blocking (map f xs) ≡ not (is_nil xs)
  any-blocking [] h = refl
  any-blocking (x ∷ xs) h = rw (h x) refl

  any-warning :
      (xs : List A) → ((x : A) → is_blocking (f x) ≡ false) → any is_blocking (map f xs) ≡ false
  any-warning [] h = refl
  any-warning (x ∷ xs) h = rw (h x) (any-warning xs h)

dead-blocking :
    (g : ChainGraph)
    → any is_blocking (dead_findings g) ≡ any (λ e. is_not_found (get g.scans e.to)) g.edges
unfolding dead_findings is_blocking severity
dead-blocking g =
    let dead = filter (λ e. is_not_found (get g.scans e.to)) g.edges in
    let groups = group_onto repo_eq repo_lt (λ e. e.to) [] dead in
    let blocks =
      any-blocking (λ entry. dead_upstream entry.0 (sort_edges entry.1)) groups (λ entry. refl) in
    ground (
      arith,
      blocks,
      is_nil-group_onto repo_eq repo_lt (λ e. e.to) [] dead,
      is_nil-filter (λ e. is_not_found (get g.scans e.to)) g.edges,
    )

moved-blocking_one :
    (entry : RepoId × Moved) → is_blocking (moved_finding entry) ≡ not (is_nil entry.1.1.0)
unfolding moved_finding is_blocking severity sort_edges
moved-blocking_one entry = ground (arith, is_nil-sort_onto edge_lt [] entry.1.1.0)

any-moved :
    (m : List (RepoId × Moved))
    → any is_blocking (map moved_finding m) ≡ any (λ entry. not (is_nil entry.1.1.0)) m
any-moved [] = refl
any-moved (entry ∷ m) = rw (moved-blocking_one entry, any-moved m) refl

is_nil-snoc : (es : List Edge) (e : Edge) → is_nil (es ++ e ∷ []) ≡ false
is_nil-snoc [] e = refl
is_nil-snoc (x ∷ es) e = refl

add_consumer-nil :
    (b : Bool) (e : Edge) (m : Moved)
    → not (is_nil (add_consumer b e m).1.0) ≡ (not (is_nil m.1.0) || b)
unfolding add_consumer
add_consumer-nil b e m = ground (arith, is_nil-snoc m.1.0 e)

-- A reference to a repository that moved, in a confirmed edge.
abbrev pub is_confirmed_move : ChainGraph → List Edge → Edge → Bool
is_confirmed_move g confirmed e = is_some (moved_to g e.to) && contains_key edge_eq confirmed e

moved_onto-any :
    (g : ChainGraph) (confirmed : List Edge) (m : List (RepoId × Moved)) (es : List Edge)
    → any (λ entry. not (is_nil entry.1.1.0)) (moved_onto g confirmed m es)
      ≡ (any (λ entry. not (is_nil entry.1.1.0)) m || any (is_confirmed_move g confirmed) es)
unfolding moved_onto
moved_onto-any g confirmed m [] = ground arith
moved_onto-any g confirmed m (e ∷ es) = elim (Option-cases (moved_to g e.to)) [
  | inl k ↦ rw k (moved_onto-any g confirmed m es)
  | inr (canonical, k) ↦
      let b = contains_key edge_eq confirmed e in
      let next = entry_update repo_eq repo_lt (canonical, ([], [])) (add_consumer b e) e.to m in
      let step =
        any-entry_update repo_eq repo_lt (λ v. not (is_nil v.1.0)) (canonical, ([], []))
          (add_consumer b e) b e.to m refl (add_consumer-nil b e) in
      rw k (ground (arith, moved_onto-any g confirmed next es, step))
]

moved-blocking :
    (g : ChainGraph)
    → any is_blocking (moved_findings g)
      ≡ any (is_confirmed_move g (confirmed_edges g)) (scanned_edges g)
unfolding moved_findings
moved-blocking g =
    any-moved (moved_onto g (confirmed_edges g) [] (scanned_edges g))
    ∙ moved_onto-any g (confirmed_edges g) [] (scanned_edges g)

diamonds_in-warning :
    (consumer : RepoId) (m : List (RepoId × List Route))
    → any is_blocking (diamonds_in consumer m) ≡ false
unfolding diamonds_in is_blocking severity
diamonds_in-warning consumer [] = refl
diamonds_in-warning consumer (entry ∷ m) = ground (arith, diamonds_in-warning consumer m)

diamond-warning :
    (g : ChainGraph) (cs : List RepoId)
    → (fs : List Finding) × ((diamond_findings g cs ≡ some fs) × (any is_blocking fs ≡ false))
unfolding diamond_findings
diamond-warning g [] = ([], (refl, refl))
diamond-warning g (c ∷ cs) = elim (Option-cases (routes_into g c)) [
  | inl k ↦ absurd (routes_into-total g c k)
  | inr (routes, k) ↦
      let rest = diamond-warning g cs in
      let here =
        diamonds_in c (group_onto repo_eq repo_lt (λ r. canonical_of g r.target) [] routes) in
      let quiet =
        diamonds_in-warning c
          (group_onto repo_eq repo_lt (λ r. canonical_of g r.target) [] routes) in
      rw (k, rest.1.0)
        (
          here ++ rest.0,
          (refl, ground (arith, any-append is_blocking here rest.0, quiet, rest.1.1)),
        )
]

skew-warning : (g : ChainGraph) → any is_blocking (skew_findings g) ≡ false
unfolding skew_findings is_blocking severity
skew-warning g =
    any-warning (λ entry. pin_skew entry.0 (map pin_use entry.1))
      (filter (λ entry. ltb 1 (length entry.1)) (skew_onto g [] (scanned_edges g))) (λ entry. refl)

mutable-warning : (g : ChainGraph) → any is_blocking (mutable_findings g) ≡ false
unfolding mutable_findings is_blocking severity
mutable-warning g =
    any-warning (λ entry. mutable_pins entry.0 (sort_edges entry.1))
      (group_onto repo_eq repo_lt (λ e. e.from) []
        (filter (λ e. not (is_immutable e.pin) && (not (is_self e) && is_scanned g e.from))
          g.edges))
      (λ entry. refl)

cycle-blocking :
    (cs : List (List RepoId)) → any is_blocking (map (λ repos. cycle repos) cs) ≡ not (is_nil cs)
unfolding is_blocking severity
cycle-blocking cs = any-blocking (λ repos. cycle repos) cs (λ repos. refl)

-- What `analyse` puts together: it gives a report for every graph, and the groups that can block are
-- the cycles, the dead upstreams and the confirmed moves.
pub all_findings-blocking :
    (g : ChainGraph) (cs : List (List RepoId))
    → cycles g ≡ some cs
    → (fs : List Finding) × ((all_findings g ≡ some fs)
        × (any is_blocking fs ≡ (
            not (is_nil cs)
            || (any (λ e. is_not_found (get g.scans e.to)) g.edges
                || any (is_confirmed_move g (confirmed_edges g)) (scanned_edges g)))))
unfolding all_findings
all_findings-blocking g cs h =
    let diamonds = diamond-warning g (consumers_of g) in
    let warnings = skew_findings g ++ mutable_findings g in
    let later = moved_findings g ++ (diamonds.0 ++ warnings) in
    let cycles_found = map (λ repos. cycle repos) cs in
    rw (h, diamonds.1.0)
      (
        cycles_found ++ (dead_findings g ++ later),
        (
          refl,
          ground (
            arith,
            any-append is_blocking cycles_found (dead_findings g ++ later),
            any-append is_blocking (dead_findings g) later,
            any-append is_blocking (moved_findings g) (diamonds.0 ++ warnings),
            any-append is_blocking diamonds.0 warnings,
            any-append is_blocking (skew_findings g) (mutable_findings g),
            cycle-blocking cs,
            dead-blocking g,
            moved-blocking g,
            diamonds.1.1,
            skew-warning g,
            mutable-warning g,
          ),
        ),
      )
