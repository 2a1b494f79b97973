-- ===== src/Fight/Scanned.antt =====
-- A population that is used was scanned, and its edges start from its repository.
use cicd_squabbler.Prelude.{
  All-append, All-map, lines, trim, starts_with, codes, ℕ, ◌≡◌, refl, ◌∙◌, true, Bool-cases,
  Option-cases, inl, inr, Option, some, List, [], ◌∷◌, All, Str, arith,
}
use cicd_squabbler.Chains.{
  RepoId, Edge, ScanStatus, scanned, not_found, unavailable, WorkflowFile, RepoSnapshot, ok,
  check_population, workflow_files,
}
use cicd_squabbler.Chains.Graph.{ChainGraph, is_scanned, record_scan, add_edges}
use cicd_squabbler.Fight.Extract.{comment_of, line_edge, parse_target, edges_in, extract_edges}
use cicd_squabbler.Fight.Graphs.{Role, status_for, counts, add_files, add_snapshot}
use cicd_squabbler.Workflows.Tokens.{strip_sequence_marker, uses_target}
use cicd_squabbler.Fight.Graphed.{is_scanned-recorded, is_scanned-scans, add_snapshot-scans}

-- A population that may be used comes from a scan that succeeded.
population-scanned :
    (status : ScanStatus) (fs files : List WorkflowFile)
    → check_population status fs ≡ ok files
    → (revision : Option Str) × ((n : ℕ) × (status_for (check_population status fs) status
          ≡ scanned revision n))
unfolding check_population status_for
population-scanned (scanned revision n) fs files h = (revision, (n, rw h refl))
population-scanned not_found fs files h = cc h
population-scanned (unavailable reason) fs files h = cc h

pub read-scanned :
    (g : ChainGraph) (entry : RepoSnapshot × Role) (files : List WorkflowFile)
    → workflow_files entry.0 ≡ ok files
    → is_scanned (add_snapshot g entry) entry.0.repo ≡ true
unfolding workflow_files
read-scanned g entry files h =
    let s = population-scanned entry.0.status entry.0.files files h in
    let start = record_scan g entry.0.repo (status_for (workflow_files entry.0) entry.0.status) in
    is_scanned-scans (add_snapshot g entry) start entry.0.repo (add_snapshot-scans g entry)
    ∙ rw s.1.1 (is_scanned-recorded g entry.0.repo s.0 s.1.0)

parse_target-from :
    (repo : RepoId) (file target : Str) (comment : Option Str) (e : Edge)
    → parse_target repo file target comment ≡ some e
    → e.from ≡ repo
unfolding parse_target
parse_target-from repo file target comment e h = ground (arith, h)

line_edge-from :
    (repo : RepoId) (file line : Str) (e : Edge) → line_edge repo file line ≡ some e → e.from ≡ repo
unfolding line_edge
line_edge-from repo file line e h = elim (Bool-cases (starts_with (codes "#") (trim line))) [
  | inl k ↦ cc (rw k at h)
  | inr k ↦ elim (Option-cases (uses_target (strip_sequence_marker (trim line)))) [
    | inl l ↦ cc (rw (k, l) at h)
    | inr (target, l) ↦
        parse_target-from repo file target (comment_of (strip_sequence_marker (trim line))) e
          (rw (k, l) at h)
  ]
]

pub edges_in-from :
    (repo : RepoId) (file : Str) (ls : List Str) → All (λ e. e.from ≡ repo) (edges_in repo file ls)
unfolding edges_in
edges_in-from repo file [] = tt
edges_in-from repo file (line ∷ ls) = elim (Option-cases (line_edge repo file line)) [
  | inl k ↦ rw (edges_in, k) (edges_in-from repo file ls)
  | inr (e, k) ↦ rw (edges_in, k) (line_edge-from repo file line e k, edges_in-from repo file ls)
]

pub add_files-All :
    (P : Edge → Type 0) (repo : RepoId) (role : Role) (fs : List WorkflowFile) (g : ChainGraph)
    → ((e : Edge) → e.from ≡ repo → P e)
    → All P g.edges
    → All P (add_files repo role fs g).edges
unfolding add_files add_edges extract_edges
add_files-All P repo role [] g h k = k
add_files-All P repo role (f ∷ fs) g h k = elim (Bool-cases (counts role f.path)) [
  | inr e ↦ rw (add_files, e) (add_files-All P repo role fs g h k)
  | inl e ↦
      let new = All-map _ P (extract_edges repo f) h (edges_in-from repo f.path (lines f.text)) in
      rw (add_files, e)
        (add_files-All P repo role fs (add_edges g (extract_edges repo f)) h
          (All-append P g.edges (extract_edges repo f) k new))
]
