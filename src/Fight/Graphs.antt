-- ===== src/Fight/Graphs.antt =====
-- crates/squabble-fight/src/chains.rs, `graph_from_snapshots` and `upstream_roles`: snapshots folded
-- into a graph, and what to read next.
use cicd_squabbler.Prelude.{
  Bool, true, if◌then◌else◌, Option, none, some, is_some, if_let, List, [], ◌∷◌, ◌++◌, map, Str,
  codes, mem, str_eq, str_lt, strip_prefix,
}
use cicd_squabbler.Chains.{
  RepoId, repo_eq, repo_lt, EdgeKind, reusable_workflow, Edge, ScanStatus, scanned, unavailable,
  WorkflowFile, RepoSnapshot, Files, ok, err, workflow_files, canonical_id,
}
use cicd_squabbler.Chains.Graph.{
  ChainGraph, new_graph, get, record_scan, record_subject, record_canonical, add_edges,
}
use cicd_squabbler.Chains.Keys.{insert_key}
use cicd_squabbler.Chains.Analyse.{entry_update}
use cicd_squabbler.Fight.Extract.{extract_edges}

pub data Role : Type 0 where
  subject : Role
  upstream : (files : List Str) → Role

unfoldable pub status_for : Files → ScanStatus → ScanStatus
status_for (err reason) (scanned revision n) = unavailable reason
status_for files status = status

unfoldable pub note_role : Role → RepoId → ChainGraph → ChainGraph
unfolding record_subject
note_role subject repo g = record_subject g repo
note_role (upstream files) repo g = g

unfoldable pub note_canonical : RepoSnapshot → ChainGraph → ChainGraph
unfolding record_canonical canonical_id
note_canonical snap g =
    if repo_eq (canonical_id snap) snap.repo
    then g
    else record_canonical g snap.repo (canonical_id snap)

unfoldable pub add_notes : RepoSnapshot → ChainGraph → ChainGraph
add_notes snap g = record g {
  notes = g.notes ++ map (λ n. snap.repo.slug ++ (codes ": " ++ n)) snap.notes;
}

unfoldable pub counts : Role → Str → Bool
counts subject path = true
counts (upstream files) path = mem path files

unfoldable pub add_files : RepoId → Role → List WorkflowFile → ChainGraph → ChainGraph
unfolding add_edges extract_edges counts
add_files repo role [] g = g
add_files repo role (f ∷ fs) g =
    add_files repo role fs (if counts role f.path then add_edges g (extract_edges repo f) else g)

unfoldable pub add_population : RepoId → Role → Files → ChainGraph → ChainGraph
unfolding add_files
add_population repo role (ok files) g = add_files repo role files g
add_population repo role (err reason) g = g

unfoldable pub add_snapshot : ChainGraph → RepoSnapshot × Role → ChainGraph
unfolding workflow_files status_for record_scan note_role note_canonical add_notes add_population
add_snapshot g entry = add_population entry.0.repo entry.1 (workflow_files entry.0) (
    add_notes entry.0 (
      note_canonical entry.0 (
        note_role entry.1 entry.0.repo
          (record_scan g entry.0.repo (status_for (workflow_files entry.0) entry.0.status)))))

unfoldable pub add_snapshots : ChainGraph → List (RepoSnapshot × Role) → ChainGraph
unfolding add_snapshot
add_snapshots g [] = g
add_snapshots g (entry ∷ rest) = add_snapshots (add_snapshot g entry) rest

unfoldable pub graph_from_snapshots : List (RepoSnapshot × Role) → ChainGraph
unfolding add_snapshots
graph_from_snapshots snapshots = add_snapshots new_graph snapshots

-- `p.trim_start_matches(pre)`: every copy of a non-empty text at the start. The fuel is the length.
unfoldable pub strip_copies : Str → Str → Str → Str
strip_copies pre [] s = s
strip_copies pre (c ∷ fuel) s = if_let (strip_prefix pre s) (λ rest. strip_copies pre fuel rest) s

unfoldable pub called_name : EdgeKind → Option Str → Option Str
unfolding strip_copies
called_name reusable_workflow (some p) = some (strip_copies (codes ".github/workflows/") p p)
called_name _ _ = none

unfoldable pub add_called : Edge → List Str → List Str
unfolding called_name insert_key
add_called e files = if_let (called_name e.kind e.path) (insert_key str_eq str_lt files) files

unfoldable pub roles_onto :
    ChainGraph → List (RepoId × List Str) → List Edge → List (RepoId × List Str)
unfolding get entry_update add_called
roles_onto g by [] = by
roles_onto g by (e ∷ es) =
    roles_onto g
      (if is_some (get g.scans e.to)
        then by
        else entry_update repo_eq repo_lt [] (add_called e) e.to by)
      es

unfoldable pub upstream_roles : ChainGraph → List (RepoId × Role)
unfolding roles_onto
upstream_roles g = map (λ entry. (entry.0, upstream entry.1)) (roles_onto g [] g.edges)
