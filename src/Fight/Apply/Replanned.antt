-- ===== src/Fight/Apply/Replanned.antt =====
-- The plan after the moves were applied: a workflow that was rewritten, read and classified again.
use cicd_squabbler.Prelude.{◌≡◌, ◌≢◌, Bool, Option, some, Option-cases, inl, inr, Str}
use cicd_squabbler.Gate.{RequiredCheck}
use cicd_squabbler.Moves.{inject_path_filter_pass_through}
use cicd_squabbler.Workflows.{WorkflowInfo, ActionsPolicyFacts, classify_found}
use cicd_squabbler.Workflows.Classified.{classify_found-inject_iff}
use cicd_squabbler.Workflows.Filter.{has_path_filter}
use cicd_squabbler.Workflows.Policy.{has_retired_descriptile_policy}
use cicd_squabbler.Workflows.Parse.{parse_workflow}
use cicd_squabbler.Fight.Apply.{remove_on_paths}
use cicd_squabbler.Fight.Apply.Rerun.{has_path_filter-remove_on_paths}

parse_workflow-path_filtered :
    (yaml : Str → Option Str) (file text : Str) (w : WorkflowInfo)
    → parse_workflow yaml file text ≡ some w
    → w.path_filtered ≡ has_path_filter text
unfolding parse_workflow
parse_workflow-path_filtered yaml file text w h =
    elim (Option-cases (has_retired_descriptile_policy yaml text)) [
      | inl e ↦ cc (rw e at h)
      | inr (retired, e) ↦ cc (rw e at h)
    ]

-- When a workflow's text has been rewritten and is read again without a panic, no required check is
-- given the pass-through for that workflow again, whatever the posture.
pub classify_found-remove_on_paths :
    (yaml : Str → Option Str) (file text : Str) (w : WorkflowInfo) (check : RequiredCheck)
    (slug name workflow : Str) (policy : Option ActionsPolicyFacts) (startup_failed : Bool)
    → parse_workflow yaml file (remove_on_paths text).0 ≡ some w
    → classify_found check slug policy startup_failed w
      ≢ some (inject_path_filter_pass_through name workflow)
classify_found-remove_on_paths yaml file text w check slug name workflow policy startup_failed h e =
    let filtered =
      ((classify_found-inject_iff check slug name workflow policy startup_failed w).0
        e).1.1.1.1.0 in
    cc (
      parse_workflow-path_filtered yaml file (remove_on_paths text).0 w h,
      has_path_filter-remove_on_paths text,
      filtered,
    )
