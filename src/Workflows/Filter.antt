-- ===== src/Workflows/Filter.antt =====
-- crates/squabble-fight/src/workflows.rs, `has_path_filter`: the test for an `on.*.paths` filter.
use cicd_squabbler.Prelude.{
  Bool, true, false, not, ◌&&◌, ◌||◌, ◌==◌, List, [], ◌∷◌, if◌then◌else◌, Str, codes, str_eq,
  starts_with, trim, lines, indent_of,
}

unfoldable pub is_jobs_line : Str → Bool
unfolding indent_of trim starts_with
is_jobs_line l = indent_of l == 0 && starts_with (codes "jobs:") (trim l)

unfoldable pub is_paths_line : Str → Bool
unfolding trim str_eq starts_with
is_paths_line l = str_eq (trim l) (codes "paths:") || starts_with (codes "paths:") (trim l)

-- `has_path_filter`, for its loop over lines and its variable `before_jobs`.
unfoldable pub has_filter : List Str → Bool → Bool
unfolding is_jobs_line is_paths_line
has_filter [] before_jobs = false
has_filter (l ∷ ls) before_jobs =
    let before = before_jobs && not (is_jobs_line l) in
    let rest = has_filter ls before in if before && is_paths_line l then true else rest

unfoldable pub has_path_filter : Str → Bool
unfolding has_filter lines
has_path_filter text = has_filter (lines text) true
