-- ===== src/Chains/Confirmed.antt =====
-- crates/squabble-core/src/chains.rs, `ChainGraph::confirmed_edges`: the edges of the requested
-- subjects, and those that a fully pinned route of reusable workflows carries in from one of them.
-- The fuel is the number of edges, and each round of the loop that goes on confirms one more.
use cicd_squabbler.Prelude.{
  ℕ, zero, suc, Bool, false, not, ◌&&◌, if◌then◌else◌, Option, none, some, if_let, List, [], any,
  filter, is_nil, length, Str, str_eq, rsplit_once,
}
use cicd_squabbler.Chains.{repo_eq, Pin, sha, EdgeKind, reusable_workflow, action, Edge}
use cicd_squabbler.Chains.Graph.{ChainGraph, contains_repo, is_scanned, scanned_revision}
use cicd_squabbler.Chains.Keys.{contains_key, insert_keys, edge_eq, edge_lt}
use cicd_squabbler.Startup.Attribution.{same_source_revision}

-- `p.rsplit('/').next()`
unfoldable pub file_name : Str → Str
file_name p = if_let (rsplit_once b'/' p) (λ parts. parts.1) p

unfoldable pub called_file : EdgeKind → Option Str → Option Str
unfolding file_name
called_file reusable_workflow (some p) = some (file_name p)
called_file reusable_workflow none = none
called_file action path = none

unfoldable pub reusable_file : Edge → Option Str
unfolding called_file
reusable_file e = called_file e.kind e.path

unfoldable pub is_pinned_to : Pin → Option Str → Bool
unfolding same_source_revision
is_pinned_to (sha pin) (some revision) = same_source_revision (some pin) (some revision)
is_pinned_to _ _ = false

unfoldable pub calls_file : Option Str → Str → Bool
calls_file (some file) name = str_eq file name
calls_file none name = false

-- `caller` calls the very workflow that `edge` stands in, at the revision that was read.
unfoldable pub carries : ChainGraph → Edge → Edge → Bool
unfolding repo_eq calls_file reusable_file is_pinned_to scanned_revision
carries g caller edge =
    repo_eq caller.to edge.from
    && (calls_file (reusable_file caller) edge.file
        && is_pinned_to caller.pin (scanned_revision g edge.from))

unfoldable pub additions : ChainGraph → List Edge → List Edge
unfolding contains_key edge_eq is_scanned carries
additions g confirmed =
    filter
      (λ edge.
        (not (contains_key edge_eq confirmed edge) && is_scanned g edge.from)
        && any (λ caller. carries g caller edge) confirmed)
      g.edges

unfoldable pub confirm : ChainGraph → ℕ → List Edge → List Edge
unfolding additions insert_keys
confirm g zero confirmed = confirmed
confirm g (suc fuel) confirmed =
    let rest = confirm g fuel (insert_keys edge_eq edge_lt confirmed (additions g confirmed)) in
    if is_nil (additions g confirmed) then confirmed else rest

unfoldable pub subject_edges : ChainGraph → List Edge
unfolding contains_repo is_scanned
subject_edges g =
    filter (λ edge. contains_repo g.subjects edge.from && is_scanned g edge.from) g.edges

unfoldable pub confirmed_edges : ChainGraph → List Edge
unfolding confirm subject_edges insert_keys
confirmed_edges g = confirm g (length g.edges) (insert_keys edge_eq edge_lt [] (subject_edges g))
