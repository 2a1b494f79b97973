-- ===== src/Fight/Samples.antt =====
-- A gate with a stranded lint and a failed build, a workflow file with a path filter, and the
-- theorems about plans and about applying moves at them.
use cicd_squabbler.Prelude.{
  inr, arith, ◌++◌, ends_with, to_ascii_lowercase, to_lower, contains, is_digit, is_alphanumeric,
  slice_from, ends_with_char, join, utf8_width, strip_suffix, strip_prefix, trim_end, trim_start,
  is_whitespace, lines, indent_of, ◌≡◌, refl, ◌≢◌, true, false, Option, none, some, List, [], ◌∷◌,
  ◌++◌, Str, codes, str_eq, if◌then◌else◌, starts_with, trim,
}
use cicd_squabbler.Gate.{missing, failed, new_check, Gate}
use cicd_squabbler.Moves.{Move, inject_path_filter_pass_through, set_actions_allowed_all}
use cicd_squabbler.Workflows.{WorkflowInfo, WorkflowKind, hygiene, classify_found}
use cicd_squabbler.Workflows.Filter.{has_filter, is_jobs_line, is_paths_line, has_path_filter}
use cicd_squabbler.Workflows.Tokens.{
  classify_kind, uses_target, reusable_repo, strip_sequence_marker, unquote, is_ident,
}
use cicd_squabbler.Workflows.Parse.{
  parse_lines, parse_line, see_uses, see_reusable, see_job, see_key, see_name, has_empty_jobs,
  empty_jobs_from, parse_workflow,
}
use cicd_squabbler.Workflows.Policy.{
  leading, run_value, state_behind, closes_retired, inline_value_retired, key_line, policy_line,
  policy_lines, has_retired_descriptile_policy,
}
use cicd_squabbler.Fight.{RepoContext, Tree}
use cicd_squabbler.Fight.Scan.{plan_with_policy, plan}
use cicd_squabbler.Fight.Probeless.{plan_with_policy-none}
use cicd_squabbler.Fight.Planned.{PlansRed, Accounts, planned_moves, plan_with_policy-Accounts}
use cicd_squabbler.Fight.Apply.{
  line_fate, skip_from, is_skipped, remove_on_paths, strip_lines, Files, Disk, apply_moves,
}
use cicd_squabbler.Fight.Apply.Jobs.{terminated, remove_on_paths-jobs}
use cicd_squabbler.Fight.Apply.Idempotent.{Idle, apply_moves-rerun}
use cicd_squabbler.Fight.Apply.Replanned.{classify_found-remove_on_paths}

abbrev gate : Gate
gate = record { checks = new_check (codes "lint") missing ∷ new_check (codes "build") failed ∷ [] }

abbrev lint : WorkflowInfo
lint = record {
  file = codes "lint.yml";
  name = some (codes "Lint");
  job_ids = codes "lint" ∷ [];
  job_names = [];
  reusable_repos = [];
  external_uses = [];
  tag_pinned_uses = [];
  path_filtered = true;
  retired_descriptile_policy = false;
  empty_jobs = false;
  kind = hygiene;
}

abbrev no_context : RepoContext
no_context = record {
  is_list = [];
  is_not = [];
  coordination_owner = none;
  golden_path = none;
  banned_langs = [];
  relationships = [];
  found = false;
}

abbrev bare_tree : Tree
bare_tree = record { display = codes "."; exists = λ p. false; read = λ p. none }

plan_with_policy-Accounts_example :
    PlansRed
      (Accounts gate
        (codes "octo/app")
        bare_tree
        no_context
        (lint ∷ [])
        none
        (planned_moves gate (codes "octo/app") (lint ∷ []) none (λ c. false)))
      (plan_with_policy gate (codes "octo/app") bare_tree no_context (lint ∷ []) none (λ c. false))
plan_with_policy-Accounts_example =
    plan_with_policy-Accounts gate (codes "octo/app") bare_tree no_context (lint ∷ []) none
      (λ c. false)

plan_with_policy-none_example :
    plan_with_policy gate (codes "octo/app") bare_tree no_context (lint ∷ []) none (λ c. true)
    ≡ plan gate (codes "octo/app") bare_tree no_context (lint ∷ [])
plan_with_policy-none_example =
    plan_with_policy-none gate (codes "octo/app") bare_tree no_context (lint ∷ []) (λ c. true)

-- A workflow's text, and a disk that holds it.
abbrev text : Str
text = codes "on:\n  pull_request:\n    paths:\n      - 'src/**'\njobs:\n  lint:\n"

abbrev files : Files
files = λ p. if str_eq p (codes "./lint.yml") then some text else none

abbrev disk : Disk
disk = record {
  workflow_path = λ w. codes "./" ++ w;
  read_error = λ p. codes "not found";
  write_error = λ p t. none;
}

abbrev moves : List Move
moves =
    inject_path_filter_pass_through (codes "lint") (codes "lint.yml")
    ∷ set_actions_allowed_all
    ∷ inject_path_filter_pass_through (codes "test") (codes "test.yml")
    ∷ []

remove_on_paths-read : remove_on_paths text ≡ (codes "on:\n  pull_request:\njobs:\n  lint:\n", true)
unfolding lines is_whitespace trim trim_start trim_end starts_with strip_prefix strip_suffix str_eq
    indent_of utf8_width join ends_with_char is_jobs_line is_paths_line has_filter has_path_filter
    is_skipped skip_from line_fate strip_lines remove_on_paths
remove_on_paths-read = refl

remove_on_paths-jobs_example :
    (remove_on_paths (codes "on:\n  paths: [a]\n" ++ codes "jobs:\n  paths: b\n")).0
    ≡ terminated (strip_lines (lines (codes "on:\n  paths: [a]\n")) true none).0
      ++ codes "jobs:\n  paths: b\n"
unfolding lines indent_of is_whitespace trim trim_start trim_end starts_with is_jobs_line
    ends_with_char
remove_on_paths-jobs_example =
    remove_on_paths-jobs (codes "on:\n  paths: [a]\n") (codes "jobs:\n  paths: b\n") (codes "jobs:")
      (codes "  paths: b" ∷ []) (inr refl) refl refl (ground arith)

apply_moves-rerun_example :
    Idle (apply_moves disk moves files).1 (apply_moves disk moves (apply_moves disk moves files).1)
apply_moves-rerun_example = apply_moves-rerun disk moves files (λ p t. refl)

abbrev no_yaml : Str → Option Str
no_yaml s = none

abbrev bare : WorkflowInfo
bare = record lint { name = none; path_filtered = false; job_names = []; kind = WorkflowKind.other }

bare-read : parse_workflow no_yaml (codes "lint.yml") (remove_on_paths text).0 ≡ some bare
unfolding lines is_whitespace trim trim_start trim_end starts_with strip_prefix strip_suffix str_eq
    indent_of utf8_width join ends_with_char is_jobs_line is_paths_line has_filter has_path_filter
    is_skipped skip_from line_fate strip_lines remove_on_paths slice_from leading run_value
    state_behind closes_retired inline_value_retired key_line policy_line policy_lines
    has_retired_descriptile_policy is_alphanumeric is_digit is_ident unquote strip_sequence_marker
    reusable_repo uses_target contains to_lower to_ascii_lowercase classify_kind empty_jobs_from
    has_empty_jobs see_name see_key see_job see_reusable see_uses parse_line parse_lines
    parse_workflow ends_with
bare-read = refl

classify_found-remove_on_paths_example :
    classify_found (new_check (codes "lint") missing) (codes "octo/app") none false bare
    ≢ some (inject_path_filter_pass_through (codes "lint") (codes "lint.yml"))
classify_found-remove_on_paths_example =
    classify_found-remove_on_paths no_yaml (codes "lint.yml") text bare
      (new_check (codes "lint") missing) (codes "octo/app") (codes "lint") (codes "lint.yml") none
      false bare-read
