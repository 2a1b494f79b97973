-- ===== src/Chains/Graph.antt =====
-- crates/squabble-core/src/chains.rs, `ChainGraph`: its state and what is recorded in it. A BTreeMap
-- is the list of its entries in the order of their keys, and a BTreeSet the list of its members.
use cicd_squabbler.Prelude.{
  Bool, true, false, Option, none, some, unwrap_or, ◌||◌, List, [], ◌∷◌, ◌++◌, if◌then◌else◌, Str,
}
use cicd_squabbler.Chains.{RepoId, repo_eq, repo_lt, Edge, ScanStatus, scanned}

module _ {V : Type 0} where
  -- `BTreeMap::get`, `BTreeMap::insert`: a key that is there keeps its spelling.
  unfoldable pub get : List (RepoId × V) → RepoId → Option V
  get [] key = none
  get (entry ∷ m) key = let rest = get m key in if repo_eq entry.0 key then some entry.1 else rest

  unfoldable pub insert : List (RepoId × V) → RepoId → V → List (RepoId × V)
  insert [] key value = (key, value) ∷ []
  insert (entry ∷ m) key value =
      let rest = insert m key value in
      if repo_eq entry.0 key
      then (entry.0, value) ∷ m
      else if repo_lt key entry.0
      then (key, value) ∷ (entry ∷ m)
      else entry ∷ rest

-- `BTreeSet::contains`, `BTreeSet::insert`: a new member stands before the first greater one.
unfoldable pub contains_repo : List RepoId → RepoId → Bool
contains_repo [] r = false
contains_repo (x ∷ s) r = repo_eq x r || contains_repo s r

unfoldable pub place : List RepoId → RepoId → List RepoId
place [] r = r ∷ []
place (x ∷ s) r = let rest = place s r in if repo_lt r x then r ∷ (x ∷ s) else x ∷ rest

unfoldable pub set_insert : List RepoId → RepoId → List RepoId
unfolding contains_repo place
set_insert s r = if contains_repo s r then s else place s r

pub record ChainGraph : Type 0 where
  pub scans : List (RepoId × ScanStatus)
  pub edges : List Edge
  pub subjects : List RepoId
  pub notes : List Str
  pub canonical : List (RepoId × RepoId)

-- `ChainGraph::new`
abbrev pub new_graph : ChainGraph
new_graph = record { scans = []; edges = []; subjects = []; notes = []; canonical = [] }

unfoldable pub status_is_scanned : Option ScanStatus → Bool
status_is_scanned (some (scanned revision files)) = true
status_is_scanned _ = false

unfoldable pub is_scanned : ChainGraph → RepoId → Bool
unfolding status_is_scanned get
is_scanned g repo = status_is_scanned (get g.scans repo)

unfoldable pub revision_of : Option ScanStatus → Option Str
revision_of (some (scanned revision files)) = revision
revision_of _ = none

unfoldable pub scanned_revision : ChainGraph → RepoId → Option Str
unfolding revision_of get
scanned_revision g repo = revision_of (get g.scans repo)

unfoldable pub record_scan : ChainGraph → RepoId → ScanStatus → ChainGraph
unfolding is_scanned insert
record_scan g repo status =
    if is_scanned g repo then g else record g { scans = insert g.scans repo status }

unfoldable pub record_canonical : ChainGraph → RepoId → RepoId → ChainGraph
unfolding insert
record_canonical g written canonical =
    if repo_eq written canonical
    then g
    else record g { canonical = insert g.canonical written canonical }

unfoldable pub moved_to : ChainGraph → RepoId → Option RepoId
unfolding get
moved_to g repo = get g.canonical repo

unfoldable pub canonical_of : ChainGraph → RepoId → RepoId
unfolding get
canonical_of g repo = unwrap_or (get g.canonical repo) repo

unfoldable pub add_edges : ChainGraph → List Edge → ChainGraph
add_edges g edges = record g { edges = g.edges ++ edges }

unfoldable pub record_subject : ChainGraph → RepoId → ChainGraph
unfolding set_insert
record_subject g repo = record g { subjects = set_insert g.subjects repo }
