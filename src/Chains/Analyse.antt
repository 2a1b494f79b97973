-- ===== src/Chains/Analyse.antt =====
-- crates/squabble-core/src/chains.rs, `analyse`: the findings of a graph, one group after the other
-- in the order of the source, and the report made of them. `cost` is passed through.
use cicd_squabbler.Prelude.{
  Bool, true, false, not, ◌&&◌, ltb, if◌then◌else◌, Option, some, is_none, if_let, ◌>>=◌, List, [],
  ◌∷◌, ◌++◌, map, any, filter, is_nil, length, Str, str_eq, str_lt, codes, decimal,
}
use cicd_squabbler.Chains.{
  RepoId, repo_eq, repo_lt, Pin, is_immutable, Edge, is_self, ScanStatus, not_found,
}
use cicd_squabbler.Chains.Graph.{
  ChainGraph, get, status_is_scanned, is_scanned, moved_to, canonical_of,
}
use cicd_squabbler.Chains.Landing.{insert_all, landing_order}
use cicd_squabbler.Chains.Keys.{
  contains_key, sort_onto, insert_keys, dedup_keys, pin_eq, pin_lt, edge_eq, edge_lt,
}
use cicd_squabbler.Chains.Confirmed.{confirmed_edges}
use cicd_squabbler.Chains.Critical.{critical_path}
use cicd_squabbler.Chains.Cycles.{cycles}
use cicd_squabbler.Chains.Routes.{Route, route_eq, route_lt, routes_into}
use cicd_squabbler.Chains.Findings.{
  PinUse, Finding, cycle, dead_upstream, moved_upstream, diamond, pin_skew, mutable_pins,
  is_blocking, SourceCost, ChainsReport,
}

module _ {K V : Type 0} (eq lt : K → K → Bool) where
  -- `map.entry(key).or_insert(start)`, and `change` on the value there.
  unfoldable pub entry_update : V → (V → V) → K → List (K × V) → List (K × V)
  entry_update start change key [] = (key, change start) ∷ []
  entry_update start change key (entry ∷ m) =
      let rest = entry_update start change key m in
      if eq entry.0 key
      then (entry.0, change entry.1) ∷ m
      else if lt key entry.0
      then (key, change start) ∷ (entry ∷ m)
      else entry ∷ rest

module _ {A K : Type 0} (eq lt : K → K → Bool) (key : A → K) where
  -- `map.entry(key(a)).or_default().push(a)` for each element.
  unfoldable pub group_onto : List (K × List A) → List A → List (K × List A)
  unfolding entry_update
  group_onto m [] = m
  group_onto m (a ∷ rest) = group_onto (entry_update eq lt [] (λ v. v ++ a ∷ []) (key a) m) rest

unfoldable pub is_not_found : Option ScanStatus → Bool
is_not_found (some not_found) = true
is_not_found _ = false

unfoldable pub sort_edges : List Edge → List Edge
unfolding sort_onto edge_lt
sort_edges es = sort_onto edge_lt [] es

-- Dead upstreams: probed and not found.
unfoldable pub dead_findings : ChainGraph → List Finding
unfolding group_onto is_not_found get sort_edges
dead_findings g =
    map (λ entry. dead_upstream entry.0 (sort_edges entry.1))
      (group_onto repo_eq repo_lt (λ e. e.to) []
        (filter (λ e. is_not_found (get g.scans e.to)) g.edges))

-- The canonical name, and the consumers that are confirmed and not.
abbrev pub Moved : Type 0
Moved = RepoId × (List Edge × List Edge)

unfoldable pub add_consumer : Bool → Edge → Moved → Moved
add_consumer confirmed e m =
    if confirmed then (m.0, (m.1.0 ++ e ∷ [], m.1.1)) else (m.0, (m.1.0, m.1.1 ++ e ∷ []))

unfoldable pub moved_onto :
    ChainGraph → List Edge → List (RepoId × Moved) → List Edge → List (RepoId × Moved)
unfolding moved_to entry_update add_consumer contains_key edge_eq
moved_onto g confirmed m [] = m
moved_onto g confirmed m (e ∷ es) =
    moved_onto g confirmed
      (if_let (moved_to g e.to)
        (λ canonical.
          entry_update repo_eq repo_lt (canonical, ([], []))
            (add_consumer (contains_key edge_eq confirmed e) e) e.to m)
        m)
      es

unfoldable pub moved_finding : RepoId × Moved → Finding
unfolding sort_edges
moved_finding entry =
    moved_upstream entry.0 entry.1.0 (sort_edges entry.1.1.0) (sort_edges entry.1.1.1)

unfoldable pub scanned_edges : ChainGraph → List Edge
unfolding is_scanned
scanned_edges g = filter (λ e. is_scanned g e.from) g.edges

unfoldable pub moved_findings : ChainGraph → List Finding
unfolding moved_onto confirmed_edges scanned_edges moved_finding
moved_findings g = map moved_finding (moved_onto g (confirmed_edges g) [] (scanned_edges g))

unfoldable pub consumers_of : ChainGraph → List RepoId
unfolding insert_all is_scanned
consumers_of g = insert_all [] (filter (is_scanned g) (map (λ e. e.from) g.edges))

-- More than one pin of a target other than the consumer, and one of them through another workflow.
unfoldable pub is_diamond : RepoId → RepoId → List Route → Bool
unfolding insert_keys pin_eq pin_lt
is_diamond consumer target routes =
    not (repo_eq target consumer)
    && (ltb 1 (length (insert_keys pin_eq pin_lt [] (map (λ r. r.pin) routes)))
        && any (λ r. not (is_nil r.via)) routes)

unfoldable pub diamonds_in : RepoId → List (RepoId × List Route) → List Finding
unfolding is_diamond dedup_keys sort_onto route_eq route_lt
diamonds_in consumer [] = []
diamonds_in consumer (entry ∷ m) =
    let rest = diamonds_in consumer m in
    if is_diamond consumer entry.0 entry.1
    then diamond consumer entry.0 (dedup_keys route_eq (sort_onto route_lt [] entry.1)) ∷ rest
    else rest

unfoldable pub diamond_findings : ChainGraph → List RepoId → Option (List Finding)
unfolding routes_into group_onto canonical_of diamonds_in
diamond_findings g [] = some []
diamond_findings g (c ∷ cs) = routes_into g c >>= λ routes. diamond_findings g cs >>= λ rest.
    some
      (diamonds_in c (group_onto repo_eq repo_lt (λ r. canonical_of g r.target) [] routes) ++ rest)

unfoldable pub skew_onto :
    ChainGraph
    → List (RepoId × List (Pin × List Edge))
    → List Edge
    → List (RepoId × List (Pin × List Edge))
unfolding entry_update canonical_of pin_eq pin_lt
skew_onto g m [] = m
skew_onto g m (e ∷ es) =
    skew_onto g
      (entry_update repo_eq repo_lt [] (entry_update pin_eq pin_lt [] (λ v. v ++ e ∷ []) e.pin)
        (canonical_of g e.to) m)
      es

unfoldable pub hints_of : List Edge → List Str
hints_of [] = []
hints_of (e ∷ es) = if_let e.version_hint (λ h. h ∷ hints_of es) (hints_of es)

unfoldable pub pin_use : Pin × List Edge → PinUse
unfolding sort_edges hints_of insert_keys
pin_use entry = record {
  pin = entry.0;
  version_hints = insert_keys str_eq str_lt [] (hints_of (sort_edges entry.1));
  consumers = sort_edges entry.1;
}

unfoldable pub skew_findings : ChainGraph → List Finding
unfolding skew_onto scanned_edges pin_use
skew_findings g =
    map (λ entry. pin_skew entry.0 (map pin_use entry.1))
      (filter (λ entry. ltb 1 (length entry.1)) (skew_onto g [] (scanned_edges g)))

unfoldable pub mutable_findings : ChainGraph → List Finding
unfolding group_onto is_scanned is_self is_immutable sort_edges
mutable_findings g =
    map (λ entry. mutable_pins entry.0 (sort_edges entry.1))
      (group_onto repo_eq repo_lt (λ e. e.from) []
        (filter (λ e. not (is_immutable e.pin) && (not (is_self e) && is_scanned g e.from))
          g.edges))

-- `sort_by_key(|f| Reverse(f.severity()))`
unfoldable pub sort_findings : List Finding → List Finding
unfolding sort_onto is_blocking
sort_findings fs = sort_onto (λ a b. is_blocking a && not (is_blocking b)) [] fs

unfoldable pub all_findings : ChainGraph → Option (List Finding)
unfolding cycles dead_findings moved_findings diamond_findings consumers_of skew_findings
    mutable_findings
all_findings g = cycles g >>= λ cs. diamond_findings g (consumers_of g) >>= λ diamonds. some (
    map (λ repos. cycle repos) cs
    ++ (dead_findings g
        ++ (moved_findings g ++ (diamonds ++ (skew_findings g ++ mutable_findings g)))))

unfoldable pub frontier_of : ChainGraph → List RepoId
unfolding insert_all get
frontier_of g = insert_all [] (filter (λ r. is_none (get g.scans r)) (map (λ e. e.to) g.edges))

unfoldable pub report_summary : ChainGraph → List Finding → List RepoId → Str
unfolding is_blocking status_is_scanned
report_summary g findings frontier =
    decimal (length (filter (λ entry. status_is_scanned (some entry.1)) g.scans))
    ++ (codes "/"
        ++ (decimal (length g.scans)
            ++ (codes " repos scanned, "
                ++ (decimal (length g.edges)
                    ++ (codes " edges, "
                        ++ (decimal (length findings)
                            ++ (codes " findings ("
                                ++ (decimal (length (filter is_blocking findings))
                                    ++ (codes " blocking), "
                                        ++ (decimal (length frontier)
                                            ++ codes " on the frontier"))))))))))

unfoldable pub make_report : ChainGraph → Option SourceCost → List Finding → ChainsReport
unfolding report_summary frontier_of landing_order critical_path
make_report g cost findings = record {
  summary = report_summary g findings (frontier_of g);
  scans = g.scans;
  edge_count = length g.edges;
  findings = findings;
  frontier = frontier_of g;
  landing_order = landing_order g;
  critical_chain = if_let (critical_path g (λ repo. 1)) (λ found. found.1) [];
  notes = g.notes;
  canonical = g.canonical;
  cost = cost;
}

unfoldable pub analyse : ChainGraph → Option SourceCost → Option ChainsReport
unfolding all_findings sort_findings make_report
analyse g cost = all_findings g >>= λ findings. some (make_report g cost (sort_findings findings))
