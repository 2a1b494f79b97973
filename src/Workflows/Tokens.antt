-- ===== src/Workflows/Tokens.antt =====
-- crates/squabble-fight/src/workflows.rs: what single lines and names of a workflow file say, and the
-- kind of a workflow.
use cicd_squabbler.Prelude.{
  Bool, not, ◌&&◌, ◌||◌, ◌==◌, Option, none, some, unwrap_or, ◌>>=◌, List, [], ◌∷◌, ◌++◌, is_nil,
  any, all, if_let, if◌then◌else◌, Str, codes, str_len, is_hexdigit, is_alphanumeric, starts_with,
  strip_prefix, strip_suffix, contains, to_ascii_lowercase, trim, trim_start, trim_matches,
  is_quote, split, split_whitespace, first_part, rsplit_once,
}
use cicd_squabbler.Workflows.{WorkflowKind, hygiene, code_build, security, proof, other}

unfoldable pub is_ident : Str → Bool
is_ident s = not (is_nil s) && all (λ c. is_alphanumeric c || (c == b'-' || c == b'_')) s

unfoldable pub unquote : Str → Str
unquote s =
    let t = trim s in
    let t = unwrap_or (strip_prefix (codes "\"") t) t in
    let t = unwrap_or (strip_suffix (codes "\"") t) t in
    let t = unwrap_or (strip_prefix (codes "'") t) t in
    trim (unwrap_or (strip_suffix (codes "'") t) t)

unfoldable pub strip_sequence_marker : Str → Str
strip_sequence_marker t = if_let (strip_prefix (codes "- ") t) trim_start t

-- `segs.next()?` twice, the test on both, and the text that is made of them.
unfoldable pub owner_repo : List Str → Str → Option Str
owner_repo (owner ∷ repo ∷ _) suffix =
    if is_nil owner || is_nil repo then none else some (owner ++ codes "/" ++ repo ++ suffix)
owner_repo _ suffix = none

unfoldable pub reusable_repo : Str → Option Str
unfolding owner_repo
reusable_repo line = strip_prefix (codes "uses:") line >>= λ rest.
    if contains (trim rest) (codes "/.github/workflows/")
    then owner_repo (split b'/' (first_part b'@' (trim rest))) []
    else none

-- `words.next()`
first_of : List Str → Option Str
first_of [] = none
first_of (s ∷ _) = some s

unfoldable pub uses_target : Str → Option Str
unfolding first_of
uses_target t = strip_prefix (codes "uses:") t >>= λ rest.
    first_of (split_whitespace (trim rest)) >>= λ token. some (trim_matches is_quote token)

unfoldable pub normalize_external_use : Str → Option Str
unfolding owner_repo
normalize_external_use target =
    if starts_with (codes "./") target
      || (starts_with (codes "$/") target || starts_with (codes "docker://") target)
    then none
    else rsplit_once b'@' target >>= λ p.
        if is_nil p.0 || is_nil p.1 then none else owner_repo (split b'/' p.0) (codes "@" ++ p.1)

unfoldable pub is_sha_pin : Str → Bool
is_sha_pin reference = str_len reference == 40 && all is_hexdigit reference

-- `norm.rsplit('@').next().unwrap_or_default()`
unfoldable pub reference_of : Str → Str
reference_of norm = if_let (rsplit_once b'@' norm) (λ p. p.1) norm

unfoldable pub classify_kind : Str → Option Str → Str → WorkflowKind
classify_kind file name text =
    let hay = to_ascii_lowercase (file ++ codes " " ++ unwrap_or name [] ++ codes " " ++ text) in
    if (contains hay (codes "workflow")
        && (contains hay (codes "lint") || contains hay (codes "security linter")))
      || (contains file (codes "workflow-linter")
          || (contains hay (codes ".github/workflows")
              && (contains hay (codes "spdx")
                  || (contains hay (codes "pinned") || contains hay (codes "permissions:")))))
    then hygiene
    else if any (contains hay) (
        codes "gnatprove"
        ∷ codes "coqc"
        ∷ codes "lean"
        ∷ codes "agda"
        ∷ codes "isabelle"
        ∷ codes "echidna"
        ∷ codes "proof-check"
        ∷ [])
    then proof
    else if any (contains hay) (
        codes "trufflehog"
        ∷ codes "gitleaks"
        ∷ codes "codeql"
        ∷ codes "scorecard"
        ∷ codes "secret-scan"
        ∷ codes "cargo audit"
        ∷ codes "cargo-audit"
        ∷ [])
    then security
    else if any (contains hay) (
        codes "shellcheck"
        ∷ codes "cargo build"
        ∷ codes "cargo test"
        ∷ codes "podman build"
        ∷ codes "nerdctl build"
        ∷ codes "docker build"
        ∷ codes "container-build"
        ∷ codes "npm "
        ∷ codes "make "
        ∷ codes "just build"
        ∷ [])
    then code_build
    else other
