-- ===== src/Fight/Extracted.antt =====
-- A workflow with two references, the graph made of it, and the theorems applied.
use cicd_squabbler.Prelude.{
  ◌≡◌, refl, false, inl, inr, true, none, some, [], ◌∷◌, All, In, codes, lines, trim, trim_start,
  trim_end, is_whitespace, starts_with, strip_prefix, ends_with, strip_suffix, mem, splitn,
  rsplit_once, split_whitespace, trim_matches, trim_start_matches, trim_end_matches, is_digit,
  is_hexdigit, str_len, utf8_width, to_ascii_lowercase, to_lower, str_eq, eq_ignore_ascii_case,
}
use cicd_squabbler.Chains.{
  RepoId, pin_parse, sha, mutable, reusable_workflow, action, Edge, scanned, WorkflowFile,
  RepoSnapshot, ok, valid_names, check_population, workflow_files,
}
use cicd_squabbler.Chains.Graph.{is_scanned}
use cicd_squabbler.Chains.Confirming.{IsConfirmed}
use cicd_squabbler.Workflows.Tokens.{strip_sequence_marker, uses_target}
use cicd_squabbler.Fight.Extract.{
  text_behind, comment_of, nonempty, segments, kind_of, is_version, first_version, version_of,
  is_local, parse_target, line_edge, edges_in, extract_edges,
}
use cicd_squabbler.Fight.Graphs.{subject, graph_from_snapshots}
use cicd_squabbler.Fight.Confirmed.{
  graph_from_snapshots-is_scanned, graph_from_snapshots-IsConfirmed,
}
use cicd_squabbler.Fight.Written.{written}

extract_opened : Unit {0}
unfolding lines trim trim_start trim_end is_whitespace starts_with strip_prefix ends_with
    strip_suffix mem splitn rsplit_once split_whitespace trim_matches trim_start_matches
    trim_end_matches is_digit is_hexdigit str_len utf8_width to_ascii_lowercase to_lower str_eq
    eq_ignore_ascii_case pin_parse valid_names check_population workflow_files strip_sequence_marker
    uses_target text_behind comment_of nonempty segments kind_of is_version first_version version_of
    is_local parse_target line_edge edges_in extract_edges
extract_opened = tt

abbrev app : RepoId
app = record { slug = codes "o/app" }

abbrev main_file : WorkflowFile
main_file = record {
  path = codes "main.yml";
  text =
      codes
        "jobs:\n  a:\n    uses: o/ci/.github/workflows/ci.yml@main\n  b:\n    steps:\n      - uses: ./local\n      - uses: o/lint@aaaaaaaaaabbbbbbbbbbccccccccccdddddddddd # v1.2 pinned\n";
}

abbrev called : Edge
called = record {
  from = app;
  file = codes "main.yml";
  to = record { slug = codes "o/ci" };
  kind = reusable_workflow;
  path = some (codes ".github/workflows/ci.yml");
  pin = mutable (codes "main");
  version_hint = none;
}

abbrev linted : Edge
linted = record {
  from = app;
  file = codes "main.yml";
  to = record { slug = codes "o/lint" };
  kind = action;
  path = none;
  pin = sha (codes "aaaaaaaaaabbbbbbbbbbccccccccccdddddddddd");
  version_hint = some (codes "v1.2");
}

main_edges : extract_edges app main_file ≡ called ∷ linted ∷ []
unfolding extract_opened
main_edges = refl

abbrev snapshot : RepoSnapshot
snapshot = record {
  repo = app;
  status = scanned none 1;
  files = main_file ∷ [];
  notes = [];
  canonical = none;
}

snapshot-files : workflow_files snapshot ≡ ok (main_file ∷ [])
unfolding extract_opened
snapshot-files = refl

linted-In : In linted (extract_edges app main_file)
unfolding extract_opened
linted-In = inr (inl refl)

graph_from_snapshots-is_scanned_example :
    All
      (λ e. is_scanned (graph_from_snapshots ((snapshot, subject) ∷ [])) e.from ≡ true)
      (graph_from_snapshots ((snapshot, subject) ∷ [])).edges
graph_from_snapshots-is_scanned_example = graph_from_snapshots-is_scanned ((snapshot, subject) ∷ [])

graph_from_snapshots-IsConfirmed_example :
    IsConfirmed (graph_from_snapshots ((snapshot, subject) ∷ [])) linted
graph_from_snapshots-IsConfirmed_example =
    graph_from_snapshots-IsConfirmed ((snapshot, subject) ∷ []) snapshot (main_file ∷ []) main_file
      linted (inl refl) snapshot-files (inl refl) linted-In

ci-foreign : is_local (written (codes "o") (codes "ci") (some (codes "x.yml")) (codes "v1")) ≡ false
unfolding extract_opened
ci-foreign = refl
