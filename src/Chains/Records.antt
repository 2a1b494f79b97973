-- ===== src/Chains/Records.antt =====
-- What is read back from a graph after a scan or a canonical name was recorded in it.
use cicd_squabbler.Prelude.{
  ◌≡◌, ◌↔◌, true, not, ◌&&◌, some, List, [], ◌∷◌, if◌then◌else◌, arith, str_eq_iff,
  to_ascii_lowercase, eq_ignore_ascii_case,
}
use cicd_squabbler.Chains.{RepoId, repo_eq, ScanStatus}
use cicd_squabbler.Chains.Graph.{
  get, insert, ChainGraph, is_scanned, record_scan, record_canonical, canonical_of,
}

pub repo_eq_iff :
    (a b : RepoId) → (repo_eq a b ≡ true) ↔ (to_ascii_lowercase a.slug ≡ to_ascii_lowercase b.slug)
unfolding repo_eq eq_ignore_ascii_case
repo_eq_iff a b = str_eq_iff (to_ascii_lowercase a.slug) (to_ascii_lowercase b.slug)

pub get-insert :
    {V : Type 0} (m : List (RepoId × V)) (key q : RepoId) (value : V)
    → get (insert m key value) q ≡ (if repo_eq key q then some value else get m q)
unfolding get insert
get-insert [] key q value = ground arith
get-insert (entry ∷ m) key q value = ground (
  arith,
  get-insert m key q value,
  repo_eq_iff entry.0 key,
  repo_eq_iff key q,
  repo_eq_iff entry.0 q,
)

-- What is known of a repository after a scan is recorded: the new status under the names that equal
-- the scanned one without regard to case, unless a successful scan was already there, and what was
-- known before under all other names.
pub get-record_scan :
    (g : ChainGraph) (repo q : RepoId) (status : ScanStatus)
    → get (record_scan g repo status).scans q
      ≡ (if repo_eq repo q && not (is_scanned g repo) then some status else get g.scans q)
unfolding record_scan
get-record_scan g repo q status = ground (arith, get-insert g.scans repo q status)

-- The canonical name after a resolution is recorded: the resolved name under the written one, unless
-- it resolved to itself, and what it was before under all other names.
pub canonical_of-record_canonical :
    (g : ChainGraph) (written canonical q : RepoId)
    → canonical_of (record_canonical g written canonical) q ≡ (
        if repo_eq written q && not (repo_eq written canonical)
        then canonical
        else canonical_of g q)
unfolding record_canonical canonical_of
canonical_of-record_canonical g written canonical q =
    ground (arith, get-insert g.canonical written q canonical)
