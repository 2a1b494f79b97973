-- ===== src/Fight/Extract.antt =====
-- crates/squabble-fight/src/chains.rs, `extract_edges` and what it calls: the references of a
-- workflow file, read line by line.
use cicd_squabbler.Prelude.{
  Bool, false, ◌==◌, ◌||◌, if◌then◌else◌, Option, none, some, if_let, ◌>>=◌, List, [], ◌∷◌, ◌++◌,
  is_nil, Str, codes, lines, trim, starts_with, strip_prefix, splitn, rsplit_once, split_whitespace,
  is_digit,
}
use cicd_squabbler.Chains.{
  RepoId, Pin, pin_parse, sha, EdgeKind, reusable_workflow, action, Edge, WorkflowFile,
}
use cicd_squabbler.Workflows.Tokens.{strip_sequence_marker, uses_target}

-- The text behind the first `sep`, as `find` and a slice give it.
unfoldable pub text_behind : Str → Str → Option Str
text_behind sep [] = none
text_behind sep (c ∷ s) =
    let rest = text_behind sep s in if_let (strip_prefix sep (c ∷ s)) (λ behind. some behind) rest

unfoldable pub comment_of : Str → Option Str
unfolding text_behind
comment_of u = text_behind (codes " #") u >>= λ behind. some (trim behind)

-- `Option::filter(|s| !s.is_empty())`
unfoldable pub nonempty : Str → Option Str
nonempty s = if is_nil s then none else some s

-- `segs.next()` up to three times.
unfoldable pub segments : List Str → Option (Str × (Str × Option Str))
unfolding nonempty
segments (owner ∷ (name ∷ [])) =
    nonempty owner >>= λ owner. nonempty name >>= λ name. some (owner, (name, none))
segments (owner ∷ (name ∷ (sub ∷ rest))) =
    nonempty owner >>= λ owner. nonempty name >>= λ name. some (owner, (name, nonempty sub))
segments _ = none

unfoldable pub kind_of : Option Str → EdgeKind
kind_of (some s) = if starts_with (codes ".github/workflows/") s then reusable_workflow else action
kind_of none = action

unfoldable pub is_version : Str → Bool
is_version [] = false
is_version (c ∷ w) = c == b'v' || is_digit c

unfoldable pub first_version : List Str → Option Str
unfolding is_version
first_version [] = none
first_version (w ∷ words) = if is_version w then some w else none

unfoldable pub version_of : Pin → Option Str → Option Str
unfolding first_version
version_of (sha s) (some comment) = first_version (split_whitespace comment)
version_of _ _ = none

unfoldable pub is_local : Str → Bool
is_local target =
    starts_with (codes "./") target
    || (starts_with (codes "$/") target || starts_with (codes "docker://") target)

unfoldable pub parse_target : RepoId → Str → Str → Option Str → Option Edge
unfolding is_local segments kind_of version_of
parse_target repo file target comment =
    if is_local target
    then none
    else rsplit_once b'@' target >>= λ parts.
        if is_nil parts.1
        then none
        else segments (splitn 3 b'/' parts.0) >>= λ segs. some (record {
          from = repo;
          file = file;
          to = record { slug = segs.0 ++ (codes "/" ++ segs.1.0) };
          kind = kind_of segs.1.1;
          path = segs.1.1;
          pin = pin_parse parts.1;
          version_hint = version_of (pin_parse parts.1) comment;
        })

unfoldable pub line_edge : RepoId → Str → Str → Option Edge
unfolding comment_of parse_target uses_target strip_sequence_marker
line_edge repo file line =
    if starts_with (codes "#") (trim line)
    then none
    else uses_target (strip_sequence_marker (trim line)) >>= λ target.
        parse_target repo file target (comment_of (strip_sequence_marker (trim line)))

unfoldable pub edges_in : RepoId → Str → List Str → List Edge
unfolding line_edge
edges_in repo file [] = []
edges_in repo file (line ∷ ls) =
    if_let (line_edge repo file line) (λ e. e ∷ edges_in repo file ls) (edges_in repo file ls)

unfoldable pub extract_edges : RepoId → WorkflowFile → List Edge
unfolding edges_in
extract_edges repo file = edges_in repo file.path (lines file.text)
