-- ===== src/Chains.antt =====
-- crates/squabble-core/src/chains.rs: how a consumer refers to an upstream repository and revision,
-- and what a source returned for one repository. `pin_parse` is `Pin::parse` and `pin_str` is
-- `Pin::as_str`; `Files` is the result of `RepoSnapshot::workflow_files`.
pub mod Graph
pub mod Landing
pub mod Upstreams
pub mod Pigeonhole
pub mod Edges
pub mod Order
pub mod Sets
pub mod Records
pub mod Snapshots
pub mod Keys
pub mod KeySets
pub mod Confirmed
pub mod Confirming
pub mod Closed
pub mod Sources
pub mod Waiting
pub mod Stuck
pub mod Critical
pub mod Chain
pub mod Weighed
pub mod Ready
pub mod Heaviest
pub mod Cycles
pub mod Visits
pub mod Routes
pub mod Followed
pub mod Findings
pub mod Analyse
pub mod Sorted
pub mod Blocking
pub mod Reports
mod Samples
mod Orders
mod Analysed
use cicd_squabbler.Prelude.{
  Bool, true, false, ◌==◌, ◌&&◌, all, if◌then◌else◌, Str, str_len, is_hexdigit, to_ascii_lowercase,
  eq_ignore_ascii_case, ℕ, Option, List, str_lt, none, some, if_let, [], ◌∷◌, ◌++◌, ◌||◌, not, any,
  mem, length, ends_with, codes,
}

-- `RepoId(String)`: names are compared without regard to ASCII case.
pub record RepoId : Type 0 where
  pub slug : Str

unfoldable pub repo_eq : RepoId → RepoId → Bool
repo_eq a b = eq_ignore_ascii_case a.slug b.slug

unfoldable pub repo_lt : RepoId → RepoId → Bool
repo_lt a b = str_lt (to_ascii_lowercase a.slug) (to_ascii_lowercase b.slug)

pub data Pin : Type 0 where
  sha mutable : (reference : Str) → Pin

unfoldable pub pin_parse : Str → Pin
pin_parse reference =
    if str_len reference == 40 && all is_hexdigit reference
    then sha (to_ascii_lowercase reference)
    else mutable reference

unfoldable pub pin_str : Pin → Str
pin_str (sha s) = s
pin_str (mutable s) = s

unfoldable pub is_immutable : Pin → Bool
is_immutable (sha _) = true
is_immutable (mutable _) = false

pub data EdgeKind : Type 0 where
  reusable_workflow action : EdgeKind

pub record Edge : Type 0 where
  pub from : RepoId
  pub file : Str
  pub to : RepoId
  pub kind : EdgeKind
  pub path : Option Str
  pub pin : Pin
  pub version_hint : Option Str

unfoldable pub is_self : Edge → Bool
unfolding repo_eq
is_self e = repo_eq e.from e.to

pub data ScanStatus : Type 0 where
  scanned : (revision : Option Str) (workflow_files : ℕ) → ScanStatus
  not_found : ScanStatus
  unavailable : (reason : Str) → ScanStatus

pub record WorkflowFile : Type 0 where
  pub path : Str
  pub text : Str

pub record RepoSnapshot : Type 0 where
  pub repo : RepoId
  pub status : ScanStatus
  pub files : List WorkflowFile
  pub notes : List Str
  pub canonical : Option Str

pub data Files : Type 0 where
  ok : (files : List WorkflowFile) → Files
  err : (reason : Str) → Files

-- The loop of `workflow_files` over the file names, and the names inserted so far.
unfoldable pub valid_names : List Str → List WorkflowFile → Bool
valid_names names [] = true
valid_names names (f ∷ fs) =
    let rest = valid_names (f.path ∷ names) fs in
    if any (λ c. c == b'/') f.path
      || (not (ends_with (codes ".yml") f.path || ends_with (codes ".yaml") f.path)
          || mem f.path names)
    then false
    else rest

unfoldable pub check_population : ScanStatus → List WorkflowFile → Files
unfolding valid_names
check_population (scanned revision workflow_files) files =
    if not (workflow_files == length files)
    then err (codes "workflow source population count does not match the retained files")
    else if valid_names [] files
    then ok files
    else err (codes "workflow source population has invalid or duplicate filenames")
check_population (unavailable reason) files =
    err (codes "workflow source population is incomplete: " ++ reason)
check_population not_found files =
    err (codes "workflow source population is unavailable: repository not found")

unfoldable pub workflow_files : RepoSnapshot → Files
unfolding check_population
workflow_files s = check_population s.status s.files

unfoldable pub canonical_id : RepoSnapshot → RepoId
canonical_id s = if_let s.canonical (λ name. record { slug = name }) s.repo
