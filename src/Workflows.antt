-- ===== src/Workflows.antt =====
-- crates/squabble-fight/src/workflows.rs: what is read from a workflow file, the repository's Actions
-- posture, and the move that a red check gets from them. Reading a file's text is in
-- Workflows/Parse; `posture_covers` is `ActionsPolicyFacts::covers`.
mod Samples
pub mod Classified
pub mod Posture
pub mod Filter
pub mod Policy
pub mod Tokens
pub mod Parse
use cicd_squabbler.Prelude.{
  Bool, true, false, not, ◌&&◌, ◌||◌, Option, none, some, or_else, ◌>>=◌, List, [], ◌∷◌, ◌++◌,
  is_nil, any, find?, if_let, if◌then◌else◌, Str, codes, str_eq, first_part, first_part_str, trim,
  starts_with,
}
use cicd_squabbler.Gate.{CheckRun, is_missing, RequiredCheck}
use cicd_squabbler.Moves
use cicd_squabbler.Moves.{
  Move, flag_non_functional_gate, assign_gate_owner, owned_upstream,
  inject_path_filter_pass_through, ground_truth_check_names, escalate_to_expert, ExpertGroup,
  EscalationKind, hypatia_fleet, dispatch_fix, scan, verify_claim, set_actions_allowed_all,
  reconcile_actions_policy, pin_workflow_actions,
}
use cicd_squabbler.Startup.{AllowList, covers}

pub data WorkflowKind : Type 0 where
  hygiene code_build security proof other : WorkflowKind

pub record WorkflowInfo : Type 0 where
  pub file : Str
  pub name : Option Str
  pub job_ids : List Str
  pub job_names : List Str
  pub reusable_repos : List Str
  pub external_uses : List Str
  pub tag_pinned_uses : List Str
  pub path_filtered : Bool
  pub retired_descriptile_policy : Bool
  pub empty_jobs : Bool
  pub kind : WorkflowKind

pub record ActionsPolicyFacts : Type 0 where
  pub allowed_actions : Str
  pub sha_pinning_required : Bool
  pub github_owned_allowed : Bool
  pub verified_allowed : Bool
  pub patterns_allowed : List Str

unfoldable pub is_selected : ActionsPolicyFacts → Bool
is_selected p = str_eq p.allowed_actions (codes "selected")

abbrev pub allow_list : ActionsPolicyFacts → AllowList
allow_list p = record {
  patterns = p.patterns_allowed;
  github_owned_allowed = p.github_owned_allowed;
  verified_allowed = p.verified_allowed;
}

unfoldable pub posture_covers : ActionsPolicyFacts → Str → Bool
posture_covers p owner_repo = covers (allow_list p) owner_repo

-- The `find_map` of `first_uncovered`.
unfoldable pub uncovered_in : ActionsPolicyFacts → List Str → Option Str
unfolding posture_covers
uncovered_in p [] = none
uncovered_in p (u ∷ us) =
    if posture_covers p (first_part b'@' u) then uncovered_in p us else some (first_part b'@' u)

unfoldable pub first_uncovered : ActionsPolicyFacts → List Str → Option Str
unfolding is_selected uncovered_in
first_uncovered p external_uses = if not (is_selected p) then none else uncovered_in p external_uses

abbrev pub is_name : Option Str → Str → Bool
is_name none target = false
is_name (some name) target = str_eq name target

unfoldable pub emits : WorkflowInfo → Str → Bool
emits w check =
    let target = trim (first_part_str (codes " / ") check) in
    any (λ j. str_eq j target) w.job_ids
    || (any (λ n. str_eq n target) w.job_names || is_name w.name target)

unfoldable pub find_emitting : List WorkflowInfo → Str → Option WorkflowInfo
unfolding emits
find_emitting workflows check = find? (λ w. emits w check) workflows

-- Step 0 of `classify_with_policy`, under an observed startup failure.
unfoldable pub policy_move : ActionsPolicyFacts → WorkflowInfo → Option Move
unfolding first_uncovered
policy_move p w =
    if_let (first_uncovered p w.external_uses)
      (λ blocked. some (
        if is_nil p.patterns_allowed
        then set_actions_allowed_all
        else reconcile_actions_policy blocked ((blocked ++ codes "@*") ∷ [])))
      (if p.sha_pinning_required && not (is_nil w.tag_pinned_uses)
        then some (pin_workflow_actions w.file w.tag_pinned_uses)
        else none)

-- Step 4: the specialist for a kind, and what the kind does.
unfoldable pub lane_of : WorkflowKind → Option (ExpertGroup × (EscalationKind × Str))
lane_of code_build = some (hypatia_fleet, (dispatch_fix, codes "builds/lints code or containers"))
lane_of security = some (Moves.security, (scan, codes "scans for secrets/vulnerabilities"))
lane_of proof = some (Moves.proof, (verify_claim, codes "checks a formal-verification obligation"))
lane_of other = none
lane_of hygiene = none

abbrev pub quoted : Str → Str
quoted s = codes "`" ++ (s ++ codes "`")

-- Steps 3 and 4.
unfoldable pub lane_move : Str → WorkflowKind → Str → Option Move
unfolding lane_of
lane_move name hygiene file = some (ground_truth_check_names file)
lane_move name kind file = lane_of kind >>= λ l. some (
    escalate_to_expert name l.0 (l.1.0) (
      quoted name
      ++ (codes " runs in "
          ++ (quoted file
              ++ (codes " which "
                  ++ (l.1.1 ++ codes " — out of the squabbler's CI-config lane"))))))

-- From the retired policy on: the steps that read the workflow only.
unfoldable pub workflow_move : RequiredCheck → Str → WorkflowInfo → Option Move
unfolding lane_move
workflow_move check slug w =
    let name = check.required_context in
    if w.retired_descriptile_policy
    then some (
        flag_non_functional_gate name (
          quoted w.file
          ++ codes
              " requires a retired descriptile path; reconcile its policy with .machine_readable/descriptiles/ and SD004 before retrying"))
    else if w.empty_jobs
    then some (
        flag_non_functional_gate name (
          quoted w.file
          ++ codes
              " contains only commented jobs; GitHub cannot create a check from this template"))
    else if_let (find? (λ r. not (str_eq r slug)) w.reusable_repos)
        (λ repo. some (
          assign_gate_owner name repo (owned_upstream repo) (
            codes "emitted by "
            ++ (quoted w.file ++ (codes " which calls the reusable workflow in " ++ quoted repo)))))
        (if w.path_filtered && is_missing check.run
          then some (inject_path_filter_pass_through name w.file)
          else lane_move name w.kind w.file)

-- Step 0 where it applies, and the other steps behind it.
unfoldable pub classify_found :
    RequiredCheck → Str → Option ActionsPolicyFacts → Bool → WorkflowInfo → Option Move
unfolding policy_move workflow_move
classify_found check slug policy startup_failed w =
    or_else (if startup_failed then (policy >>= λ p. policy_move p w) else none)
      (workflow_move check slug w)

unfoldable pub classify_with_policy :
    List WorkflowInfo → RequiredCheck → Str → Option ActionsPolicyFacts → Bool → Option Move
unfolding find_emitting classify_found
classify_with_policy workflows check slug policy startup_failed =
    find_emitting workflows check.required_context >>= λ w.
    classify_found check slug policy startup_failed w

-- `WorkflowFacts::classify`
unfoldable pub classify_check : List WorkflowInfo → RequiredCheck → Str → Option Move
unfolding classify_with_policy
classify_check workflows check slug = classify_with_policy workflows check slug none false
