-- ===== src/Workflows/Parse.antt =====
-- crates/squabble-fight/src/workflows.rs, `parse_workflow`: the facts that are read from the text of
-- one workflow file. The variables of its loop over lines are a record, `parse_line` is one round.
pub mod Uses
use cicd_squabbler.Prelude.{
  ℕ, Bool, true, false, not, ◌&&◌, ◌||◌, ◌==◌, leb, Option, none, some, unwrap_or, ◌>>=◌, is_some,
  List, [], ◌∷◌, ◌++◌, is_nil, any, all, if_let, if◌then◌else◌, Str, codes, str_eq, str_len,
  is_hexdigit, is_alphanumeric, starts_with, ends_with_char, strip_prefix, strip_suffix, contains,
  to_ascii_lowercase, trim, trim_start, trim_matches, is_quote, is_whitespace, lines, indent_of,
  split, split_whitespace, first_part, rsplit_once, mem,
}
use cicd_squabbler.Workflows.{
  WorkflowKind, hygiene, code_build, security, proof, other, WorkflowInfo,
}
use cicd_squabbler.Workflows.Policy.{has_retired_descriptile_policy}
use cicd_squabbler.Workflows.Filter.{has_path_filter}
use cicd_squabbler.Workflows.Tokens.{
  classify_kind, is_ident, is_sha_pin, normalize_external_use, owner_repo, reference_of,
  reusable_repo, strip_sequence_marker, unquote, uses_target,
}

first_char : Str → Option ℕ
first_char [] = none
first_char (c ∷ _) = some c

-- `has_empty_jobs`: the loop, with `in_jobs`.
unfoldable pub empty_jobs_from : List Str → Bool → Bool
unfolding first_char
empty_jobs_from [] in_jobs = in_jobs
empty_jobs_from (line ∷ ls) in_jobs =
    let t = trim line in
    let header =
      if_let (strip_prefix (codes "jobs:") line)
        (λ rest. is_nil (trim rest) || starts_with (codes "#") (trim rest)) false in
    let skipped = is_nil t || starts_with (codes "#") t in
    let rest = empty_jobs_from ls (if skipped then in_jobs else header) in
    if not skipped && in_jobs then not (if_let (first_char line) is_whitespace false) else rest

unfoldable pub has_empty_jobs : Str → Bool
unfolding empty_jobs_from
has_empty_jobs text = empty_jobs_from (lines text) false

pub record Parsing : Type 0 where
  pub name : Option Str
  pub job_ids : List Str
  pub job_names : List Str
  pub reusable_repos : List Str
  pub external_uses : List Str
  pub tag_pinned_uses : List Str
  pub in_jobs : Bool
  pub seen_jobs_header : Bool

abbrev pub start_parsing : Parsing
start_parsing = record {
  name = none;
  job_ids = [];
  job_names = [];
  reusable_repos = [];
  external_uses = [];
  tag_pinned_uses = [];
  in_jobs = false;
  seen_jobs_header = false;
}

-- `if !v.contains(&s) { v.push(s) }`
abbrev pub push_new : Str → List Str → List Str
push_new s v = if mem s v then v else v ++ s ∷ []

unfoldable pub see_name : Str → ℕ → Parsing → Parsing
see_name t indent s = record s {
  name = if_let s.name some (
      if_let (strip_prefix (codes "name:") t)
        (λ rest. if indent == 0 then some (unquote (trim rest)) else none) none);
}

unfoldable pub see_key : Str → ℕ → Parsing → Parsing
see_key t indent s = record s {
  in_jobs =
      if s.seen_jobs_header && (indent == 0 && (not (is_nil t) && not (starts_with (codes "#") t)))
      then starts_with (codes "jobs:") t
      else s.in_jobs;
}

unfoldable pub see_job : Str → ℕ → Parsing → Parsing
unfolding is_ident unquote
see_job t indent s = record s {
  job_ids =
      if s.in_jobs && indent == 2
      then if_let (strip_suffix (codes ":") t)
          (λ id. if is_ident id then s.job_ids ++ id ∷ [] else s.job_ids) s.job_ids
      else s.job_ids;
  job_names =
      if s.in_jobs && leb 4 indent
      then if_let (strip_prefix (codes "name:") t) (λ rest. s.job_names ++ unquote (trim rest) ∷ [])
          s.job_names
      else s.job_names;
}

unfoldable pub see_external : Str → Parsing → Parsing
unfolding is_sha_pin reference_of
see_external norm s = record s {
  external_uses = push_new norm s.external_uses;
  tag_pinned_uses =
      if is_sha_pin (reference_of norm) then s.tag_pinned_uses else push_new norm s.tag_pinned_uses;
}

unfoldable pub see_reusable : Str → Parsing → Parsing
unfolding reusable_repo
see_reusable u s = record s {
  reusable_repos = if_let (reusable_repo u) (λ r. push_new r s.reusable_repos) s.reusable_repos;
}

unfoldable pub see_uses : Str → Parsing → Parsing
unfolding uses_target normalize_external_use see_external
see_uses u s =
    if_let (uses_target u >>= λ target. normalize_external_use target) (λ norm. see_external norm s)
      s

unfoldable pub parse_line : Str → Parsing → Parsing
unfolding see_name see_key see_job see_reusable see_uses strip_sequence_marker
parse_line line s =
    let indent = indent_of line in
    let t = trim line in
    let s = see_name t indent s in
    if indent == 0 && starts_with (codes "jobs:") t
    then record s { in_jobs = true; seen_jobs_header = true }
    else (let u = strip_sequence_marker t in
        see_uses u (see_reusable u (see_job t indent (see_key t indent s))))

unfoldable pub parse_lines : List Str → Parsing → Parsing
unfolding parse_line
parse_lines [] s = s
parse_lines (l ∷ ls) s = parse_lines ls (parse_line l s)

-- `none` is the panic of `has_retired_descriptile_policy`, `yaml` reads a YAML string.
unfoldable pub parse_workflow : (Str → Option Str) → Str → Str → Option WorkflowInfo
unfolding parse_lines classify_kind has_empty_jobs has_path_filter
parse_workflow yaml file text =
    let s = parse_lines (lines text) start_parsing in
    has_retired_descriptile_policy yaml text >>= λ retired. some (record {
      file = file;
      name = s.name;
      job_ids = s.job_ids;
      job_names = s.job_names;
      reusable_repos = s.reusable_repos;
      external_uses = s.external_uses;
      tag_pinned_uses = s.tag_pinned_uses;
      path_filtered = has_path_filter text;
      retired_descriptile_policy = retired;
      empty_jobs = has_empty_jobs text;
      kind = classify_kind file s.name text;
    })
