-- ===== src/Chains/Samples.antt =====
-- A graph with one scanned repository and a snapshot, and the theorems about them applied.
use cicd_squabbler.Prelude.{
  ◌≡◌, refl, none, some, [], ◌∷◌, codes, mem, ends_with, strip_suffix, str_eq, str_lt, to_lower,
  to_ascii_lowercase, eq_ignore_ascii_case,
}
use cicd_squabbler.Chains.{
  RepoId, repo_eq, repo_lt, ScanStatus, scanned, not_found, RepoSnapshot, ok, err, valid_names,
  check_population, workflow_files,
}
use cicd_squabbler.Chains.Graph.{
  get, insert, new_graph, status_is_scanned, is_scanned, record_scan, record_canonical,
  canonical_of,
}

abbrev octo : RepoId
octo = record { slug = codes "Octo/app" }

abbrev octo_lower : RepoId
octo_lower = record { slug = codes "octo/app" }

abbrev read : ScanStatus
read = scanned none 1

abbrev snapshot : RepoSnapshot
snapshot = record {
  repo = octo;
  status = read;
  files = record { path = codes "ci.yml"; text = [] } ∷ [];
  notes = [];
  canonical = none;
}

chains_opened : Unit {0}
unfolding ends_with strip_suffix mem str_eq str_lt to_lower to_ascii_lowercase eq_ignore_ascii_case
    repo_eq repo_lt valid_names check_population workflow_files get insert status_is_scanned
    is_scanned record_scan record_canonical canonical_of
chains_opened = tt

snapshot-ok : workflow_files snapshot ≡ ok snapshot.files
unfolding chains_opened
snapshot-ok = refl

snapshot-doubled :
    workflow_files (record snapshot {
      status = scanned none 2;
      files = record { path = codes "ci.yml"; text = [] } ∷ snapshot.files;
    })
    ≡ err (codes "workflow source population has invalid or duplicate filenames")
unfolding chains_opened
snapshot-doubled = refl

-- A later failure under another spelling does not replace a successful scan.
scan-kept :
    get (record_scan (record_scan new_graph octo read) octo_lower not_found).scans octo ≡ some read
unfolding chains_opened
scan-kept = refl
