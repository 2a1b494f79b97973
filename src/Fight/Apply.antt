-- ===== src/Fight/Apply.antt =====
-- crates/squabble-fight/src/apply.rs: the moves that are written to the working tree. The disk is a store of texts; how a path is joined and shown,
-- the texts of errors, which writes fail and what a failed write leaves behind are parameters.
pub mod Filters
pub mod Jobs
pub mod Rerun
pub mod Moves
pub mod Idempotent
pub mod Replanned
use cicd_squabbler.Prelude.{
  ℕ, Bool, true, false, not, ◌&&◌, ◌||◌, ◌==◌, leb, suc, Option, none, some, List, [], ◌∷◌, ◌++◌,
  is_nil, if_let, if◌then◌else◌, unwrap_or, Str, codes, str_eq, starts_with, strip_prefix, trim,
  lines, indent_of, join, ends_with_char,
}
use cicd_squabbler.Moves.{Move, inject_path_filter_pass_through}
use cicd_squabbler.Moves.Describe.{quoted}
use cicd_squabbler.Outcome.{AppliedChange}
use cicd_squabbler.Workflows.Filter.{is_jobs_line, is_paths_line}

-- The lines of a list value, or blank lines in it, while `skipping` is set.
unfoldable pub is_skipped : Option ℕ → Str → Bool
unfolding trim indent_of
is_skipped skipping l =
    if_let skipping (λ key_indent. is_nil (trim l) || leb (suc key_indent) (indent_of l)) false

-- `skipping` behind a key line that is dropped.
unfoldable pub skip_from : Str → Option ℕ
unfolding trim strip_prefix indent_of
skip_from l =
    if is_nil (trim (unwrap_or (strip_prefix (codes "paths:") (trim l)) []))
    then some (indent_of l)
    else none

-- What one round of the loop of `remove_on_paths` does with a line.
pub data LineFate : Type 0 where
  skip : LineFate
  drop : LineFate
  keep : LineFate

unfoldable pub line_fate : Bool → Option ℕ → Str → LineFate
unfolding is_skipped is_jobs_line is_paths_line
line_fate before_jobs skipping l =
    if is_skipped skipping l
    then skip
    else if (before_jobs && not (is_jobs_line l)) && is_paths_line l
    then drop
    else keep

unfoldable pub strip_lines : List Str → Bool → Option ℕ → List Str × Bool
unfolding line_fate skip_from
strip_lines [] before_jobs skipping = ([], false)
strip_lines (l ∷ ls) before_jobs skipping = elim (line_fate before_jobs skipping l) [
  | skip ↦ strip_lines ls before_jobs skipping
  | drop ↦ ((strip_lines ls (before_jobs && not (is_jobs_line l)) (skip_from l)).0, true)
  | keep ↦
      let rest = strip_lines ls (before_jobs && not (is_jobs_line l)) none in (l ∷ rest.0, rest.1)
]

unfoldable pub remove_on_paths : Str → Str × Bool
unfolding strip_lines lines join ends_with_char
remove_on_paths text =
    let out = strip_lines (lines text) true none in
    (join (codes "\n") out.0 ++ (if ends_with_char 10 text then codes "\n" else []), out.1)

-- The texts of the files below the root, by path. `none` is a file that cannot be read.
abbrev pub Files : Type 0
Files = Str → Option Str

-- `repo_root.join(..)` for a workflow's file, the texts of errors, and the error of a write with what
-- the file holds after it, where the write fails.
pub record Disk : Type 0 where
  pub workflow_path : Str → Str
  pub read_error : Str → Str
  pub write_error : Str → Str → Option (Str × Option Str)

abbrev pub set_file : Str → Option Str → Files → Files
set_file path content files = λ p. if str_eq p path then content else files p

-- `Result<Option<String>, String>`
pub data Stripped : Type 0 where
  ok : Option Str → Stripped
  err : Str → Stripped

abbrev pub stripped_detail : Str
stripped_detail =
    codes
      "removed the `on.*.paths` trigger filter so the required check is always created (it now runs on every PR — a strict coverage increase, never a bypass); layering an always-run `changes` detector to skip heavy work on unrelated PRs is a documented follow-up"

unfoldable pub write_back : Disk → Str → Str → Files → Stripped × Files
write_back disk path text files =
    if_let (disk.write_error path text)
      (λ e. (err (codes "write " ++ (path ++ (codes ": " ++ e.0))), set_file path e.1 files))
      (ok (some stripped_detail), set_file path (some text) files)

unfoldable pub strip_path_filter : Disk → Str → Files → Stripped × Files
unfolding remove_on_paths write_back
strip_path_filter disk workflow files =
    let path = disk.workflow_path workflow in
    if_let (files path)
      (λ text.
        if (remove_on_paths text).1
        then write_back disk path (remove_on_paths text).0 files
        else (ok none, files))
      (err (codes "read " ++ (path ++ (codes ": " ++ disk.read_error path))), files)

pub record ApplyOutcome : Type 0 where
  pub applied : List AppliedChange
  pub skipped : List Str

-- One move's entry in the outcome, before the entries of the later moves.
unfoldable pub note : Str → Str → Stripped → ApplyOutcome → ApplyOutcome
note check workflow (ok (some detail)) out = record out {
  applied =
      record {
        move_kind = codes "inject-path-filter-pass-through";
        file = codes ".github/workflows/" ++ workflow;
        detail = detail;
      }
      ∷ out.applied;
}
note check workflow (ok none) out = record out {
  skipped =
      (quoted check
        ++ (codes ": "
            ++ (quoted workflow
                ++ codes
                    " has no `on.*.paths` filter to strip (already applied?) — no change written")))
      ∷ out.skipped;
}
note check workflow (err e) out = record out {
  skipped =
      (quoted check
        ++ (codes ": could not strip path filter from " ++ (quoted workflow ++ (codes ": " ++ e))))
      ∷ out.skipped;
}

unfoldable pub apply_moves : Disk → List Move → Files → ApplyOutcome × Files
unfolding strip_path_filter note
apply_moves disk [] files = (record { applied = []; skipped = [] }, files)
apply_moves disk (inject_path_filter_pass_through check workflow ∷ ms) files =
    let done = strip_path_filter disk workflow files in
    let rest = apply_moves disk ms done.1 in (note check workflow done.0 rest.0, rest.1)
apply_moves disk (_ ∷ ms) files = apply_moves disk ms files
