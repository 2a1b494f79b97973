-- ===== src/Chains/Analysed.antt =====
-- A caller of a pinned workflow that uses a moved and a missing repository, a cycle of two, and the
-- theorems about confirmed edges and reports applied.
use cicd_squabbler.Prelude.{
  Any, ◌⊎◌, ◌≤◌, ◌≡◌, ◌↔◌, ◌≢◌, refl, inl, inr, true, none, some, List, [], ◌∷◌, ◌++◌, filter, not,
  codes, str_eq, str_lt, to_lower, to_ascii_lowercase, eq_ignore_ascii_case, rsplit_once, str_len,
  utf8_width, is_hexdigit, is_digit, decimal_from, decimal, join, Str,
}
use cicd_squabbler.Chains.{
  RepoId, repo_eq, repo_lt, sha, action, reusable_workflow, Edge, is_self, scanned, not_found,
  is_immutable, pin_str,
}
use cicd_squabbler.Chains.Graph.{
  get, insert, ChainGraph, contains_repo, place, set_insert, status_is_scanned, is_scanned,
  revision_of, scanned_revision, moved_to, canonical_of,
}
use cicd_squabbler.Chains.Landing.{
  insert_all, edge_nodes, nodes, contains_pair, place_pair, insert_pair, collect_pairs, repo_edges,
  add_wait, add_waits, ready_of, rounds, landing, order_of, landing_order,
}
use cicd_squabbler.Chains.Keys.{
  contains_key, dedup_from, dedup_keys, place_key, sort_onto, insert_key, insert_keys, pin_eq,
  pin_lt, kind_eq, kind_lt, text_eq, text_lt, edge_eq, edge_lt,
}
use cicd_squabbler.Chains.Confirmed.{
  file_name, called_file, reusable_file, is_pinned_to, calls_file, carries, additions, confirm,
  subject_edges, confirmed_edges,
}
use cicd_squabbler.Chains.Confirming.{IsConfirmed}
use cicd_squabbler.Chains.Closed.{confirmed_edges_iff}
use cicd_squabbler.Chains.Stuck.{IsStuck, landing_order-eq-none_iff}
use cicd_squabbler.Chains.Critical.{
  saturating_add, better, candidate, weigh, is_greater, max_from, max_entry, walk_back, path_of,
  critical_path,
}
use cicd_squabbler.Chains.Cycles.{
  set_at, replicate, index_at, low_at, is_on_stack, is_unvisited, enter, lower, see_upstream,
  pop_until, close, each_upstream, visit, visit_all, position, push_at, adjacency, range, repos_lt,
  names_at, start, cycles_of, cycles,
}
use cicd_squabbler.Chains.Routes.{
  basis_eq, basis_lt, repos_eq, route_eq, route_lt, is_visited, basis_of, inner_edges,
  route_through, each_inner, follow, follow_all, direct_route, edges_of, routes_into,
}
use cicd_squabbler.Chains.Findings.{
  Finding, dead_upstream, moved_upstream, severity, is_blocking, ChainsReport, has_blocking,
  join_repos, describe_moved, pin_texts, describe_diamond, describe_finding,
}
use cicd_squabbler.Chains.Analyse.{
  entry_update, group_onto, is_not_found, sort_edges, dead_findings, add_consumer, moved_onto,
  moved_finding, scanned_edges, moved_findings, consumers_of, is_diamond, diamonds_in,
  diamond_findings, skew_onto, hints_of, pin_use, skew_findings, mutable_findings, sort_findings,
  all_findings, frontier_of, report_summary, make_report, analyse,
}
use cicd_squabbler.Chains.Chain.{onto, chain_weight}
use cicd_squabbler.Chains.Heaviest.{IsChain, critical_path-heaviest}
use cicd_squabbler.Chains.Reports.{analyse-total, analyse-findings, has_blocking-analyse_iff}
use cicd_squabbler.Chains.Orders.{app, ci, base, loop}
use cicd_squabbler.Startup.Attribution.{same_source_revision}

abbrev commit : Str
commit = codes "aaaaaaaaaabbbbbbbbbbccccccccccdddddddddd"

-- `o/app` calls the workflow `ci.yml` of `o/ci` by its commit.
abbrev calls : Edge
calls = record {
  from = app;
  file = codes "main.yml";
  to = ci;
  kind = reusable_workflow;
  path = some (codes ".github/workflows/ci.yml");
  pin = sha commit;
  version_hint = none;
}

-- That workflow uses `o/base`, which moved; another workflow of `o/ci` does too.
abbrev inner : Edge
inner = record {
  from = ci;
  file = codes "ci.yml";
  to = base;
  kind = action;
  path = none;
  pin = sha commit;
  version_hint = none;
}

abbrev beside : Edge
beside = record inner { file = codes "other.yml" }

abbrev gone : RepoId
gone = record { slug = codes "o/gone" }

abbrev dead : Edge
dead = record inner { from = app; file = codes "main.yml"; to = gone }

abbrev estate : ChainGraph
estate = record {
  scans = (app, scanned (some commit) 1) ∷ (ci, scanned (some commit) 2) ∷ (gone, not_found) ∷ [];
  edges = calls ∷ inner ∷ beside ∷ dead ∷ [];
  subjects = app ∷ [];
  notes = [];
  canonical = (base, record { slug = codes "n/base" }) ∷ [];
}

confirmed_opened : Unit {0}
unfolding str_eq str_lt to_lower to_ascii_lowercase eq_ignore_ascii_case rsplit_once str_len
    utf8_width is_hexdigit is_digit repo_eq repo_lt is_self get contains_repo place set_insert
    status_is_scanned is_scanned revision_of scanned_revision moved_to contains_key place_key
    insert_key insert_keys pin_eq pin_lt kind_eq kind_lt text_eq text_lt edge_eq edge_lt file_name
    called_file reusable_file same_source_revision is_pinned_to calls_file carries additions confirm
    subject_edges confirmed_edges
confirmed_opened = tt

confirmed_edges-estate : confirmed_edges estate ≡ calls ∷ dead ∷ inner ∷ []
unfolding confirmed_opened
confirmed_edges-estate = refl

cycles_opened : Unit {0}
unfolding str_eq str_lt to_lower to_ascii_lowercase eq_ignore_ascii_case repo_eq repo_lt is_self
    contains_repo place set_insert insert_all edge_nodes nodes contains_pair place_pair insert_pair
    collect_pairs repo_edges place_key sort_onto set_at replicate index_at low_at is_on_stack
    is_unvisited enter lower see_upstream pop_until close each_upstream visit visit_all position
    push_at adjacency range repos_lt names_at start cycles_of cycles
cycles_opened = tt

cycles-loop : cycles loop ≡ some ((app ∷ ci ∷ []) ∷ [])
unfolding cycles_opened
cycles-loop = refl

cycles-estate : cycles estate ≡ some []
unfolding cycles_opened
cycles-estate = refl

report_opened : Unit {0}
unfolding confirmed_opened cycles_opened add_wait add_waits ready_of rounds landing order_of
    landing_order saturating_add better candidate weigh is_greater max_from max_entry walk_back
    path_of critical_path insert decimal_from decimal join pin_str is_immutable canonical_of
    dedup_from dedup_keys utf8_width basis_eq basis_lt repos_eq route_eq route_lt is_visited
    basis_of inner_edges route_through each_inner follow follow_all direct_route edges_of
    routes_into severity is_blocking has_blocking join_repos describe_moved pin_texts
    describe_diamond describe_finding entry_update group_onto is_not_found sort_edges dead_findings
    add_consumer moved_onto moved_finding scanned_edges moved_findings consumers_of is_diamond
    diamonds_in diamond_findings skew_onto hints_of pin_use skew_findings mutable_findings
    sort_findings all_findings frontier_of report_summary make_report analyse
report_opened = tt

abbrev estate_findings : List Finding
estate_findings =
    dead_upstream gone (dead ∷ [])
    ∷ moved_upstream base (record { slug = codes "n/base" }) (inner ∷ []) (beside ∷ [])
    ∷ []

abbrev estate_report : ChainsReport
estate_report = record {
  summary = codes "2/3 repos scanned, 4 edges, 2 findings (2 blocking), 1 on the frontier";
  scans = estate.scans;
  edge_count = 4;
  findings = estate_findings;
  frontier = base ∷ [];
  landing_order = some (base ∷ gone ∷ ci ∷ app ∷ []);
  critical_chain = base ∷ ci ∷ app ∷ [];
  notes = [];
  canonical = estate.canonical;
  cost = none;
}

analyse-estate : analyse estate none ≡ some estate_report
unfolding report_opened
analyse-estate = refl

estate-findings : all_findings estate ≡ some estate_findings
unfolding report_opened
estate-findings = refl

confirmed_edges_iff_example :
    (contains_key edge_eq (confirmed_edges estate) inner ≡ true) ↔ IsConfirmed estate inner
confirmed_edges_iff_example = confirmed_edges_iff estate inner (inr (inl refl))

landing_order-eq-none_iff_example :
    (landing_order loop ≡ none) ↔ ((s : List RepoId) × IsStuck loop s)
landing_order-eq-none_iff_example = landing_order-eq-none_iff loop

analyse-total_example : analyse estate none ≢ none
analyse-total_example = analyse-total estate none

analyse-findings_example :
    estate_report.findings
    ≡ filter is_blocking estate_findings ++ filter (λ f. not (is_blocking f)) estate_findings
analyse-findings_example =
    analyse-findings estate none estate_report estate_findings analyse-estate estate-findings

estate-acyclic : cycles estate ≡ some []
unfolding report_opened
estate-acyclic = refl

has_blocking-analyse_iff_example : (has_blocking estate_report ≡ true) ↔ (
    Any (λ e. get estate.scans e.to ≡ some not_found) estate.edges
    ⊎ Any (λ e. IsConfirmed estate e × (moved_to estate e.to ≢ none)) estate.edges)
has_blocking-analyse_iff_example =
    has_blocking-analyse_iff estate none estate_report estate-acyclic analyse-estate

estate-order : landing_order estate ≡ some (base ∷ gone ∷ ci ∷ app ∷ [])
unfolding report_opened
estate-order = refl

app-in_estate : contains_repo (nodes estate) app ≡ true
unfolding report_opened
app-in_estate = refl

critical_path-heaviest_example :
    (c : List RepoId) × ((critical_path estate (λ repo. 1)
        ≡ some (chain_weight (λ repo. 1) c, onto c []))
      × (IsChain estate c
          × ((d : List RepoId)
              → IsChain estate d
              → chain_weight (λ repo. 1) d ≤ chain_weight (λ repo. 1) c)))
critical_path-heaviest_example =
    critical_path-heaviest estate (λ repo. 1) (base ∷ gone ∷ ci ∷ app ∷ []) app (λ a b h. refl)
      estate-order app-in_estate
