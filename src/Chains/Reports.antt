-- ===== src/Chains/Reports.antt =====
-- What a report says of a graph: when it blocks, the order of its findings, and the frontier.
use cicd_squabbler.Prelude.{
  ap, In-filter, All-filter, All-In, ◌≡◌, refl, ◌↔◌, ◌≢◌, ◌⊎◌, Bool, true, not, ◌&&◌, ◌||◌,
  Option-cases, inl, inr, Option, none, some, is_none, List, [], ◌∷◌, ◌++◌, map, any, filter,
  is_nil, Any, In, Any-In, In-Any, any_iff, arith, sym, ◌∙◌,
}
use cicd_squabbler.Chains.{RepoId, repo_eq, Edge, ScanStatus, not_found}
use cicd_squabbler.Chains.Graph.{contains_repo, ChainGraph, get, is_scanned, moved_to}
use cicd_squabbler.Chains.Keys.{contains_key, edge_eq}
use cicd_squabbler.Chains.Confirmed.{confirmed_edges}
use cicd_squabbler.Chains.Confirming.{IsConfirmed, requested, carried}
use cicd_squabbler.Chains.Closed.{confirmed_edges_iff}
use cicd_squabbler.Chains.Cycles.{cycles}
use cicd_squabbler.Chains.Visits.{cycles-total}
use cicd_squabbler.Chains.Findings.{Finding, is_blocking, SourceCost, ChainsReport, has_blocking}
use cicd_squabbler.Chains.Analyse.{
  frontier_of, is_not_found, scanned_edges, sort_findings, all_findings, make_report, analyse,
}
use cicd_squabbler.Chains.Sorted.{sort_findings-parts, any-sort_findings}
use cicd_squabbler.Chains.Confirming.{get-cong}
use cicd_squabbler.Chains.Sets.{contains-insert_all}
use cicd_squabbler.Chains.Blocking.{is_confirmed_move, all_findings-blocking}

pub analyse-runs :
    (g : ChainGraph) (cost : Option SourceCost)
    → (fs : List Finding) × ((all_findings g ≡ some fs)
        × (analyse g cost ≡ some (make_report g cost (sort_findings fs))))
unfolding analyse
analyse-runs g cost = elim (Option-cases (cycles g)) [
  | inl h ↦ absurd (cycles-total g h)
  | inr (cs, h) ↦
      let found = all_findings-blocking g cs h in (found.0, (found.1.0, rw found.1.0 refl))
]

-- The analysis gives a report for every graph: neither the search for cycles nor the following of
-- calls runs out of fuel.
pub analyse-total : (g : ChainGraph) (cost : Option SourceCost) → analyse g cost ≢ none
analyse-total g cost h = let ran = analyse-runs g cost in cc (h, ran.1.1)

analyse-cases :
    (g : ChainGraph) (cost : Option SourceCost) (report : ChainsReport)
    → analyse g cost ≡ some report
    → (fs : List Finding) × ((all_findings g ≡ some fs)
        × (make_report g cost (sort_findings fs) ≡ report))
analyse-cases g cost report h = let ran = analyse-runs g cost in (ran.0, (ran.1.0, cc (h, ran.1.1)))

-- The findings of a report are all findings of the graph, those that block before the others, and
-- each kind in the order in which it was found.
pub analyse-findings :
    (g : ChainGraph) (cost : Option SourceCost) (report : ChainsReport) (fs : List Finding)
    → analyse g cost ≡ some report
    → all_findings g ≡ some fs
    → report.findings ≡ filter is_blocking fs ++ filter (λ f. not (is_blocking f)) fs
unfolding make_report
analyse-findings g cost report fs h k =
    let ran = analyse-cases g cost report h in
    let same : ran.0 ≡ fs = cc (k, ran.1.0) in
    ap (λ r. r.findings) (sym ran.1.1) ∙ sort_findings-parts ran.0 ∙ rw same refl

has_blocking-any :
    (g : ChainGraph) (cost : Option SourceCost) (fs : List Finding)
    → has_blocking (make_report g cost (sort_findings fs)) ≡ any is_blocking fs
unfolding has_blocking make_report
has_blocking-any g cost fs = any-sort_findings fs

-- The three causes: a cycle, a reference to a repository that was not found, and a confirmed
-- reference to a repository that moved.
abbrev Blocks : ChainGraph → Type 0
Blocks g =
    (cycles g ≢ some [])
    ⊎ (Any (λ e. get g.scans e.to ≡ some not_found) g.edges
        ⊎ Any (λ e. IsConfirmed g e × (moved_to g e.to ≢ none)) g.edges)

is_not_found_iff : (s : Option ScanStatus) → (is_not_found s ≡ true) ↔ (s ≡ some not_found)
unfolding is_not_found
is_not_found_iff s = ground arith

dead_iff :
    (g : ChainGraph)
    → (any (λ e. is_not_found (get g.scans e.to)) g.edges ≡ true)
      ↔ Any (λ e. get g.scans e.to ≡ some not_found) g.edges
dead_iff g =
    let p : Edge → Bool = λ e. is_not_found (get g.scans e.to) in
    (
      λ h.
          let m = Any-In (λ e. p e ≡ true) g.edges ((any_iff p g.edges).0 h) in
          In-Any _ g.edges m.0 m.1.0 ((is_not_found_iff (get g.scans m.0.to)).0 m.1.1),
      λ h.
          let m = Any-In (λ e. get g.scans e.to ≡ some not_found) g.edges h in
          (any_iff p g.edges).1 (
            In-Any (λ e. p e ≡ true) g.edges m.0 m.1.0
              ((is_not_found_iff (get g.scans m.0.to)).1 m.1.1)),
    )

IsConfirmed-scanned :
    (g : ChainGraph) (e : Edge) → IsConfirmed g e → In e g.edges × (is_scanned g e.from ≡ true)
IsConfirmed-scanned g _ (requested e m h k) = (m, k)
IsConfirmed-scanned g _ (carried c e i m h k) = (m, h)

moved_iff :
    (g : ChainGraph)
    → (any (is_confirmed_move g (confirmed_edges g)) (scanned_edges g) ≡ true)
      ↔ Any (λ e. IsConfirmed g e × (moved_to g e.to ≢ none)) g.edges
unfolding scanned_edges
moved_iff g =
    let p = is_confirmed_move g (confirmed_edges g) in
    let from_scanned : Edge → Bool = λ e. is_scanned g e.from in
    (
      λ h.
          let m = Any-In (λ e. p e ≡ true) (scanned_edges g) ((any_iff p (scanned_edges g)).0 h) in
          let there =
            All-In (λ e. In e g.edges) (scanned_edges g) m.0
              (All-filter (λ e. In e g.edges) from_scanned g.edges (λ e n k. n)) m.1.0 in
          let confirmed : contains_key edge_eq (confirmed_edges g) m.0 ≡ true =
            ground (arith, m.1.1) in
          let moved : moved_to g m.0.to ≢ none = λ k. ground (arith, m.1.1, k) in
          In-Any _ g.edges m.0 there ((confirmed_edges_iff g m.0 there).0 confirmed, moved),
      λ h.
          let m = Any-In (λ e. IsConfirmed g e × (moved_to g e.to ≢ none)) g.edges h in
          let facts = IsConfirmed-scanned g m.0 m.1.1.0 in
          let confirmed = (confirmed_edges_iff g m.0 facts.0).1 m.1.1.0 in
          let passes : p m.0 ≡ true = ground (arith, confirmed, m.1.1.1) in
          (any_iff p (scanned_edges g)).1 (
            In-Any (λ e. p e ≡ true) (scanned_edges g) m.0
              (In-filter from_scanned g.edges m.0 facts.0 facts.1) passes),
    )

has_blocking-Blocks_iff :
    (g : ChainGraph) (cost : Option SourceCost) (report : ChainsReport)
    → analyse g cost ≡ some report
    → (has_blocking report ≡ true) ↔ Blocks g
has_blocking-Blocks_iff g cost report h = elim (Option-cases (cycles g)) [
  | inl k ↦ absurd (cycles-total g k)
  | inr (cs, k) ↦
      let ran = analyse-cases g cost report h in
      let found = all_findings-blocking g cs k in
      let same : ran.0 ≡ found.0 = cc (ran.1.0, found.1.0) in
      let reads : has_blocking report ≡ any is_blocking found.0 =
        ap has_blocking (sym ran.1.1) ∙ has_blocking-any g cost ran.0 ∙ ap (any is_blocking) same in
      let cyclic : (not (is_nil cs) ≡ true) ↔ (cycles g ≢ some []) = cycles_iff cs k in
      let dead = dead_iff g in
      let moved = moved_iff g in ground (arith, reads, found.1.1, cyclic, dead, moved)
]
  where
    cycles_iff :
        (cs : List (List RepoId))
        → cycles g ≡ some cs
        → (not (is_nil cs) ≡ true) ↔ (cycles g ≢ some [])
    cycles_iff [] k = (λ e. cc e, λ e. absurd (e k))
    cycles_iff (c ∷ cs) k = (λ e l. cc (k, l), λ e. refl)

-- Where the search for cycles finds none, a report blocks exactly when a reference names a repository
-- whose scan is `NotFound`, confirmed or not, or a confirmed reference names one that moved.
pub has_blocking-analyse_iff :
    (g : ChainGraph) (cost : Option SourceCost) (report : ChainsReport)
    → cycles g ≡ some []
    → analyse g cost ≡ some report
    → (has_blocking report ≡ true) ↔ (
        Any (λ e. get g.scans e.to ≡ some not_found) g.edges
        ⊎ Any (λ e. IsConfirmed g e × (moved_to g e.to ≢ none)) g.edges)
has_blocking-analyse_iff g cost report none_found h =
    let blocks = has_blocking-Blocks_iff g cost report h in
    (λ k. left (blocks.0 k), λ k. blocks.1 (inr k))
  where
    left :
        Blocks g
        → (Any (λ e. get g.scans e.to ≡ some not_found) g.edges
            ⊎ Any (λ e. IsConfirmed g e × (moved_to g e.to ≢ none)) g.edges)
    left (inl k) = absurd (k none_found)
    left (inr k) = k

contains-unprobed :
    (g : ChainGraph) (r : RepoId) (es : List Edge)
    → contains_repo (filter (λ x. is_none (get g.scans x)) (map (λ e. e.to) es)) r
      ≡ (is_none (get g.scans r) && any (λ e. repo_eq e.to r) es)
unfolding contains_repo
contains-unprobed g r [] = ground arith
contains-unprobed g r (e ∷ es) = ground (arith, contains-unprobed g r es, get-cong g.scans e.to r)

contains-targets :
    (g : ChainGraph) (r : RepoId) (es : List Edge)
    → (contains_repo [] r
        || contains_repo (filter (λ x. is_none (get g.scans x)) (map (λ e. e.to) es)) r)
      ≡ (is_none (get g.scans r) && any (λ e. repo_eq e.to r) es)
unfolding contains_repo
contains-targets g r es = contains-unprobed g r es

-- The frontier of a report holds exactly the repositories that an edge points to and that were never
-- probed.
pub frontier_iff :
    (g : ChainGraph) (cost : Option SourceCost) (report : ChainsReport) (r : RepoId)
    → analyse g cost ≡ some report
    → (contains_repo report.frontier r ≡ true)
      ↔ ((get g.scans r ≡ none) × Any (λ e. repo_eq e.to r ≡ true) g.edges)
unfolding make_report frontier_of
frontier_iff g cost report r h =
    let ran = analyse-cases g cost report h in
    let reads : contains_repo report.frontier r
        ≡ (is_none (get g.scans r) && any (λ e. repo_eq e.to r) g.edges) =
      ap (λ p. contains_repo p.frontier r) (sym ran.1.1)
      ∙ contains-insert_all [] (filter (λ x. is_none (get g.scans x)) (map (λ e. e.to) g.edges)) r
      ∙ contains-targets g r g.edges in
    let some_edge = any_iff (λ e. repo_eq e.to r) g.edges in ground (arith, reads, some_edge)
