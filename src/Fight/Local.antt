-- ===== src/Fight/Local.antt =====
-- crates/squabble-fight/src/chains.rs, the local source: a checkout read into a snapshot. What the
-- file system answers is a parameter (`Checkout`); a file that cannot be read is none, and `read_ref`
-- reads the file below `.git` that a reference names.
use cicd_squabbler.Prelude.{
  ℕ, Bool, false, not, ◌==◌, ◌&&◌, ◌||◌, if◌then◌else◌, Option, none, some, or_else, unwrap_or,
  if_let, ◌>>=◌, List, [], ◌∷◌, ◌++◌, all, is_nil, length, Str, codes, join, lines, trim, split,
  starts_with, strip_prefix, strip_suffix, str_eq, str_lt, str_len, is_hexdigit, to_ascii_lowercase,
  trim_start_matches, trim_end_matches,
}
use cicd_squabbler.Chains.{RepoId, ScanStatus, scanned, unavailable, WorkflowFile, RepoSnapshot}
use cicd_squabbler.Chains.Keys.{sort_onto}
use cicd_squabbler.Fight.Extract.{text_behind}

-- `symlink_metadata` of a component of the path, and `file_type` of an entry of the directory.
pub data Component : Type 0 where
  directory missing other : Component
  broken : (error : Str) → Component

pub data EntryKind : Type 0 where
  folder regular special : EntryKind
  unknown : (error : Str) → EntryKind

pub data ReadText : Type 0 where
  text_is : (text : Str) → ReadText
  unreadable : (error : Str) → ReadText

pub record DirEntry : Type 0 where
  pub extension : Option Str
  pub name : Option Str
  pub display : Str
  pub entry_kind : EntryKind
  pub content : ReadText

pub data Listed : Type 0 where
  listed : (entry : DirEntry) → Listed
  unlisted : (error : Str) → Listed

pub data Listing : Type 0 where
  entries_are : (entries : List Listed) → Listing
  no_listing : (error : Str) → Listing

pub record Checkout : Type 0 where
  pub is_dir : Bool
  pub file_name : Option Str
  pub shown : Str
  pub component : Str → Component
  pub listing : Listing
  pub read_file : Str → Option Str
  pub read_ref : Str → Option Str

-- What is read: the workflow files and the caveats.
abbrev pub Workflows : Type 0
Workflows = List WorkflowFile × List Str

unfoldable pub is_workflow_extension : Option Str → Bool
is_workflow_extension (some e) = str_eq e (codes "yml") || str_eq e (codes "yaml")
is_workflow_extension none = false

unfoldable pub read_regular : Str → ReadText → Workflows
read_regular name (text_is text) = (record { path = name; text = text } ∷ [], [])
read_regular name (unreadable error) =
    ([], (codes "could not read " ++ (name ++ (codes ": " ++ error))) ∷ [])

unfoldable pub read_named : Str → EntryKind → ReadText → Workflows
unfolding read_regular
read_named name folder content = ([], [])
read_named name regular content = read_regular name content
read_named name special content = ([], (name ++ codes ": workflow is not a regular file") ∷ [])
read_named name (unknown error) content =
    ([], (codes "could not inspect " ++ (name ++ (codes ": " ++ error))) ∷ [])

unfoldable pub read_entry : Listed → Workflows
unfolding is_workflow_extension read_named
read_entry (unlisted error) =
    ([], (codes "could not read workflow directory entry: " ++ error) ∷ [])
read_entry (listed e) =
    if is_workflow_extension e.extension
    then if_let e.name (λ name. read_named name e.entry_kind e.content)
        ([], (codes "workflow filename is not UTF-8: " ++ e.display) ∷ [])
    else ([], [])

unfoldable pub read_entries : List Listed → Workflows
unfolding read_entry
read_entries [] = ([], [])
read_entries (entry ∷ rest) =
    ((read_entry entry).0 ++ (read_entries rest).0, (read_entry entry).1 ++ (read_entries rest).1)

-- What the loop over the two components of the path returns, if anything.
unfoldable pub inspect : Str → Component → Option Workflows
inspect name directory = none
inspect name missing = some ([], [])
inspect name other = some ([], (name ++ codes " is not a regular directory") ∷ [])
inspect name (broken error) =
    some ([], (codes "could not inspect " ++ (name ++ (codes ": " ++ error))) ∷ [])

unfoldable pub read_listing : Listing → Workflows
unfolding read_entries sort_onto
read_listing (entries_are entries) =
    (sort_onto (λ a b. str_lt a.path b.path) [] (read_entries entries).0, (read_entries entries).1)
read_listing (no_listing error) =
    ([], (codes "could not enumerate .github/workflows: " ++ error) ∷ [])

unfoldable pub read_local_workflows : Checkout → Workflows
unfolding inspect read_listing
read_local_workflows c =
    if_let (inspect (codes ".github") (c.component (codes ".github"))) (λ w. w)
      (if_let (inspect (codes ".github/workflows") (c.component (codes ".github/workflows")))
        (λ w. w) (read_listing c.listing))

-- `trim_end_matches(".git")`: every copy at the end. The fuel is the text.
unfoldable pub strip_tails : Str → Str → Str
strip_tails [] s = s
strip_tails (c ∷ fuel) s = if_let (strip_suffix (codes ".git") s) (strip_tails fuel) s

-- The first two segments.
unfoldable pub slug_of : List Str → Option Str
slug_of (o ∷ (r ∷ rest)) =
    if not (is_nil o) && not (is_nil r) then some (o ++ (codes "/" ++ r)) else none
slug_of _ = none

unfoldable pub github_slug : Str → Option Str
unfolding text_behind strip_tails slug_of
github_slug url =
    or_else (text_behind (codes "github.com/") url) (text_behind (codes "github.com:") url)
    >>= λ rest.
        let path = trim_end_matches (λ c. c == b'/') rest in
        slug_of (split b'/' (strip_tails path path))

unfoldable pub origin_in : Bool → List Str → Option Str
unfolding github_slug
origin_in in_origin [] = none
origin_in in_origin (line ∷ ls) =
    let t = trim line in
    let rest =
      origin_in
        (if starts_with (codes "[") t then str_eq t (codes "[remote \"origin\"]") else in_origin)
        ls in
    if starts_with (codes "[") t
    then rest
    else if in_origin
    then if_let (strip_prefix (codes "url") t)
        (λ r. github_slug (trim (trim_start_matches (λ c. c == b' ' || c == b'=') r))) rest
    else rest

unfoldable pub origin_slug : Checkout → Option Str
unfolding origin_in
origin_slug c = c.read_file (codes ".git/config") >>= λ cfg. origin_in false (lines cfg)

unfoldable pub is_commit : Str → Bool
is_commit s = str_len s == 40 && all is_hexdigit s

unfoldable pub commit_of : Str → Option Str
unfolding is_commit
commit_of s = if is_commit s then some (to_ascii_lowercase s) else none

-- `l.split_once(' ')` for one character.
unfoldable pub split_at : ℕ → Str → Option (Str × Str)
split_at sep [] = none
split_at sep (c ∷ s) =
    let rest = split_at sep s in
    if c == sep then some ([], s) else (rest >>= λ p. some (c ∷ p.0, p.1))

unfoldable pub packed_commit : Str → List Str → Option Str
unfolding split_at commit_of
packed_commit r [] = none
packed_commit r (l ∷ ls) =
    or_else (split_at b' ' l >>= λ p. if str_eq p.1 r then commit_of p.0 else none)
      (packed_commit r ls)

unfoldable pub commit_of_ref : Checkout → Str → Option Str
unfolding packed_commit commit_of
commit_of_ref c r =
    or_else (c.read_ref r >>= λ s. commit_of (trim s))
      (c.read_file (codes ".git/packed-refs") >>= λ packed. packed_commit r (lines packed))

unfoldable pub head_revision : Checkout → Option Str
unfolding commit_of_ref commit_of
head_revision c = c.read_file (codes ".git/HEAD") >>= λ head.
    if_let (strip_prefix (codes "ref: ") (trim head)) (commit_of_ref c) (commit_of (trim head))

unfoldable pub unread : RepoId → Str → RepoSnapshot
unread repo reason = record {
  repo = repo;
  status = unavailable reason;
  files = [];
  notes = [];
  canonical = none;
}

unfoldable pub local_status : Option Str → Workflows → ScanStatus
local_status revision w =
    if is_nil w.1 then scanned revision (length w.0) else unavailable (join (codes "; ") w.1)

unfoldable pub snapshot_of : Checkout → RepoId → RepoSnapshot
unfolding unread local_status head_revision read_local_workflows
snapshot_of c repo =
    if c.is_dir
    then record {
      repo = repo;
      status = local_status (head_revision c) (read_local_workflows c);
      files = (read_local_workflows c).0;
      notes = (read_local_workflows c).1;
      canonical = none;
    }
    else unread repo (c.shown ++ codes " is not a directory")

unfoldable pub snapshot_local : Checkout → Option Str → RepoSnapshot
unfolding snapshot_of origin_slug unread
snapshot_local c slug =
    if_let (or_else slug (origin_slug c)) (λ s. snapshot_of c (record { slug = s }))
      (unread (record { slug = codes "local/" ++ unwrap_or c.file_name (codes "unknown") })
        (codes "no slug given and no GitHub `origin` remote under " ++ c.shown))
