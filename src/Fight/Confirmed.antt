-- ===== src/Fight/Confirmed.antt =====
-- Every edge of a graph that is made of snapshots stands in a repository that was read in full, and
-- the references of a requested repository are confirmed.
use cicd_squabbler.Prelude.{
  All-map, All-In, lines, ◌≡◌, refl, sym, true, inl, inr, List, [], ◌∷◌, All, In, arith,
}
use mathlib.Core.Path.{subst}
use cicd_squabbler.Chains.{RepoId, Edge, WorkflowFile, RepoSnapshot, Files, ok, err, workflow_files}
use cicd_squabbler.Chains.Graph.{
  ChainGraph, new_graph, contains_repo, is_scanned, record_scan, record_subject,
}
use cicd_squabbler.Chains.Records.{repo_eq_iff}
use cicd_squabbler.Chains.Sets.{contains-set_insert}
use cicd_squabbler.Chains.Confirming.{IsConfirmed, requested}
use cicd_squabbler.Fight.Extract.{extract_edges}
use cicd_squabbler.Fight.Graphs.{
  Role, subject, status_for, note_role, note_canonical, add_notes, add_population, add_snapshot,
  add_snapshots, graph_from_snapshots,
}
use cicd_squabbler.Fight.Graphed.{
  add_population-kept, note_canonical-kept, probed, probed-kept, Extends, Extends-trans,
  add_files-new, add_snapshot-probed, add_snapshot-Extends,
}
use cicd_squabbler.Fight.Scanned.{read-scanned, edges_in-from, add_files-All}

-- The consumer of each edge was scanned.
abbrev AreScanned : ChainGraph → List Edge → Type 0
AreScanned g es = All (λ e. is_scanned g e.from ≡ true) es

AreScanned-kept :
    (g h : ChainGraph) (es : List Edge) → Extends g h → AreScanned g es → AreScanned h es
AreScanned-kept g h es x k = All-map _ _ es (λ e m. x.still_scanned e.from m) k

population-AreScanned :
    (g h : ChainGraph) (repo : RepoId) (role : Role) (files : Files)
    → ((fs : List WorkflowFile) → files ≡ ok fs → is_scanned h repo ≡ true)
    → AreScanned h g.edges
    → AreScanned h (add_population repo role files g).edges
unfolding add_population
population-AreScanned g h repo role (err reason) read k = k
population-AreScanned g h repo role (ok fs) read k =
    add_files-All (λ e. is_scanned h e.from ≡ true) repo role fs g
      (λ e same. subst (λ r. is_scanned h r ≡ true) (sym same) (read fs refl)) k

add_snapshot-AreScanned :
    (g : ChainGraph) (entry : RepoSnapshot × Role)
    → AreScanned g g.edges
    → AreScanned (add_snapshot g entry) (add_snapshot g entry).edges
add_snapshot-AreScanned g entry k =
    let h = add_snapshot g entry in
    let old = AreScanned-kept g h g.edges (add_snapshot-Extends g entry) k in
    let start = subst (AreScanned h) (sym (probed-kept g entry).1) old in
    subst (λ x. AreScanned h x.edges) (sym (add_snapshot-probed g entry))
      (population-AreScanned (probed g entry) h entry.0.repo entry.1 (workflow_files entry.0)
        (read-scanned g entry) start)

add_snapshots-AreScanned :
    (g : ChainGraph) (snapshots : List (RepoSnapshot × Role))
    → AreScanned g g.edges
    → AreScanned (add_snapshots g snapshots) (add_snapshots g snapshots).edges
unfolding add_snapshots
add_snapshots-AreScanned g [] k = k
add_snapshots-AreScanned g (entry ∷ rest) k =
    add_snapshots-AreScanned (add_snapshot g entry) rest (add_snapshot-AreScanned g entry k)

-- Whatever the snapshots and their roles, every edge of the graph that is made of them stands in a
-- repository that the graph records as scanned: a population that is incomplete, miscounted or
-- misnamed contributes no edge.
pub graph_from_snapshots-is_scanned :
    (snapshots : List (RepoSnapshot × Role))
    → All
        (λ e. is_scanned (graph_from_snapshots snapshots) e.from ≡ true)
        (graph_from_snapshots snapshots).edges
unfolding graph_from_snapshots
graph_from_snapshots-is_scanned snapshots = add_snapshots-AreScanned new_graph snapshots tt

add_snapshots-Extends :
    (g : ChainGraph) (snapshots : List (RepoSnapshot × Role))
    → Extends g (add_snapshots g snapshots)
unfolding add_snapshots
add_snapshots-Extends g [] = record {
  still_scanned = λ r m. m;
  still_subject = λ r m. m;
  still_edge = λ e m. m;
}
add_snapshots-Extends g (entry ∷ rest) =
    Extends-trans g (add_snapshot g entry) (add_snapshots (add_snapshot g entry) rest)
      (add_snapshot-Extends g entry) (add_snapshots-Extends (add_snapshot g entry) rest)

note_role-subject :
    (repo : RepoId) (g : ChainGraph) → contains_repo (note_role subject repo g).subjects repo ≡ true
unfolding note_role record_subject
note_role-subject repo g =
    ground (arith, contains-set_insert g.subjects repo repo, (repo_eq_iff repo repo).1 refl)

add_snapshot-subject :
    (g : ChainGraph) (snap : RepoSnapshot)
    → contains_repo (add_snapshot g (snap, subject)).subjects snap.repo ≡ true
unfolding probed add_notes
add_snapshot-subject g snap =
    let files = workflow_files snap in
    let start = record_scan g snap.repo (status_for files snap.status) in
    let kept = add_population-kept snap.repo subject files (probed g (snap, subject)) in
    rw (add_snapshot-probed g (snap, subject), kept.1) (probed_subject start)
  where
    probed_subject :
        (start : ChainGraph)
        → contains_repo
            (add_notes snap (note_canonical snap (note_role subject snap.repo start))).subjects
            snap.repo
          ≡ true
    probed_subject start =
        rw ((note_canonical-kept snap (note_role subject snap.repo start)).1.0)
          (note_role-subject snap.repo start)

-- A reference in a scanned repository that was asked for.
record IsRequested (g : ChainGraph) (e : Edge) : Type 0 where
  there : In e g.edges
  asked : contains_repo g.subjects e.from ≡ true
  read : is_scanned g e.from ≡ true

IsRequested-Extends :
    (g h : ChainGraph) (e : Edge) → Extends g h → IsRequested g e → IsRequested h e
IsRequested-Extends g h e x r = record {
  there = x.still_edge e r.there;
  asked = x.still_subject e.from r.asked;
  read = x.still_scanned e.from r.read;
}

module _ (snap : RepoSnapshot) (files : List WorkflowFile) (f : WorkflowFile) (e : Edge)
    (good : workflow_files snap ≡ ok files) (listed : In f files)
    (extracted : In e (extract_edges snap.repo f)) where
  extracted-from : e.from ≡ snap.repo
  unfolding extract_edges
  extracted-from =
      All-In (λ d. d.from ≡ snap.repo) (extract_edges snap.repo f) e
        (edges_in-from snap.repo f.path (lines f.text)) extracted

  add_snapshot-there : (g : ChainGraph) → In e (add_snapshot g (snap, subject)).edges
  unfolding add_population
  add_snapshot-there g =
      rw (add_snapshot-probed g (snap, subject), good)
        (add_files-new snap.repo files (probed g (snap, subject)) f e listed extracted)

  add_snapshot-IsRequested : (g : ChainGraph) → IsRequested (add_snapshot g (snap, subject)) e
  add_snapshot-IsRequested g =
      let h = add_snapshot g (snap, subject) in
      record {
        there = add_snapshot-there g;
        asked =
            subst (λ r. contains_repo h.subjects r ≡ true) (sym extracted-from)
              (add_snapshot-subject g snap);
        read =
            subst (λ r. is_scanned h r ≡ true) (sym extracted-from)
              (read-scanned g (snap, subject) files good);
      }

  add_snapshots-IsRequested :
      (g : ChainGraph) (snapshots : List (RepoSnapshot × Role))
      → In (snap, subject) snapshots
      → IsRequested (add_snapshots g snapshots) e
  unfolding add_snapshots
  add_snapshots-IsRequested g [] m = absurd m
  add_snapshots-IsRequested g (entry ∷ rest) (inl same) =
      subst (λ x. IsRequested (add_snapshots (add_snapshot g x) rest) e) (sym same)
        (IsRequested-Extends (add_snapshot g (snap, subject)) _ e
          (add_snapshots-Extends (add_snapshot g (snap, subject)) rest)
          (add_snapshot-IsRequested g))
  add_snapshots-IsRequested g (entry ∷ rest) (inr m) =
      add_snapshots-IsRequested (add_snapshot g entry) rest m

-- A reference that stands in a file of a requested repository which was read in full is confirmed in
-- the graph that is made of the snapshots.
pub graph_from_snapshots-IsConfirmed :
    (snapshots : List (RepoSnapshot × Role)) (snap : RepoSnapshot) (files : List WorkflowFile)
    (f : WorkflowFile) (e : Edge)
    → In (snap, subject) snapshots
    → workflow_files snap ≡ ok files
    → In f files
    → In e (extract_edges snap.repo f)
    → IsConfirmed (graph_from_snapshots snapshots) e
unfolding graph_from_snapshots
graph_from_snapshots-IsConfirmed snapshots snap files f e m h k l =
    let r = add_snapshots-IsRequested snap files f e h k l new_graph snapshots m in
    requested e r.there r.asked r.read
