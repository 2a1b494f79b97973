-- ===== src/Execution.antt =====
-- crates/squabble-core/src/execution.rs: where a job stopped, from its step names and conclusions.
-- `classify` is cut into functions that each end in a call of the next: the job, then the failed
-- steps, then the passed ones.
pub mod Classes
pub mod Describe
mod Samples
use cicd_squabbler.Prelude.{
  Bool, true, false, not, ◌&&◌, ◌||◌, Option, none, some, List, [], ◌∷◌, ◌++◌, any, is_nil, find?,
  if◌then◌else◌, if_let, Str, codes, str_eq, trim, mem,
}
use mathlib.Core.List.{reverse}
use cicd_squabbler.Gate.{CheckRun, missing, pending, failed, skipped, passed}
use cicd_squabbler.Polarity.{StepConclusion, success, failure, conclusion_eq, StepOutcome}

abbrev pub setup_job_step : Str
setup_job_step = codes "Set up job"

abbrev pub post_job_steps : List Str
post_job_steps = codes "Post job" ∷ codes "Complete job" ∷ []

pub record PhaseSignatures : Type 0 where
  pub setup_steps : List Str
  pub prerequisite_steps : List Str

unfoldable pub is_usable : PhaseSignatures → Bool
is_usable p = not (is_nil p.setup_steps) || not (is_nil p.prerequisite_steps)

unfoldable pub is_setup : PhaseSignatures → Str → Bool
is_setup p name =
    let n = trim name in str_eq n setup_job_step || any (λ s. str_eq (trim s) n) p.setup_steps

unfoldable pub is_prerequisite : PhaseSignatures → Str → Bool
is_prerequisite p name = let n = trim name in any (λ s. str_eq (trim s) n) p.prerequisite_steps

unfoldable pub is_post : Str → Bool
is_post name = mem (trim name) post_job_steps

unfoldable pub is_policy_step : PhaseSignatures → Str → Bool
is_policy_step p name = not (is_setup p name) && not (is_prerequisite p name) && not (is_post name)

pub data UnclassifiedReason : Type 0 where
  no_step_evidence not_concluded no_failing_step : UnclassifiedReason
  failure_outside_policy_step no_successful_step : UnclassifiedReason

-- `UnclassifiedReason::label`
unfoldable pub reason_label : UnclassifiedReason → Str
reason_label no_step_evidence = codes "no step evidence"
reason_label not_concluded = codes "not concluded"
reason_label no_failing_step = codes "no failing step"
reason_label failure_outside_policy_step = codes "failure outside a policy step"
reason_label no_successful_step = codes "no successful policy step"

pub data Handoff : Type 0 where
  admission provisioning prerequisites policy_report no_claim : Handoff

-- `Handoff::label`
unfoldable pub handoff_label : Handoff → Str
handoff_label admission = codes "admission"
handoff_label provisioning = codes "provisioning"
handoff_label prerequisites = codes "prerequisites"
handoff_label policy_report = codes "policy-report"
handoff_label no_claim = codes "no-claim"

pub data ExecutionClass : Type 0 where
  not_started : ExecutionClass
  preflight_failed prerequisite_missing policy_step_failed : (step : Str) → ExecutionClass
  verified : (step : Str) → ExecutionClass
  unclassified : (reason : UnclassifiedReason) → ExecutionClass

-- `ExecutionClass::label`
unfoldable pub class_label : ExecutionClass → Str
class_label not_started = codes "not-started"
class_label (preflight_failed _) = codes "preflight-failed"
class_label (prerequisite_missing _) = codes "prerequisite-missing"
class_label (policy_step_failed _) = codes "policy-step-failed"
class_label (verified _) = codes "verified"
class_label (unclassified _) = codes "unclassified"

unfoldable pub step : ExecutionClass → Option Str
step not_started = none
step (unclassified _) = none
step (preflight_failed s) = some s
step (prerequisite_missing s) = some s
step (policy_step_failed s) = some s
step (verified s) = some s

unfoldable pub handoff : ExecutionClass → Handoff
handoff not_started = admission
handoff (preflight_failed _) = provisioning
handoff (prerequisite_missing _) = prerequisites
handoff (policy_step_failed _) = policy_report
handoff (verified _) = no_claim
handoff (unclassified _) = no_claim

unfoldable pub is_evidence_bearing_success : ExecutionClass → Bool
is_evidence_bearing_success (verified _) = true
is_evidence_bearing_success _ = false

-- The predicates that the five `find` calls of `classify` use.
abbrev pub is_failure : StepOutcome → Bool
is_failure s = conclusion_eq s.conclusion failure

module _ (p : PhaseSignatures) where
  abbrev pub setup_failure : StepOutcome → Bool
  setup_failure s = is_failure s && is_setup p s.name

  abbrev pub prerequisite_failure : StepOutcome → Bool
  prerequisite_failure s = is_failure s && is_prerequisite p s.name

  abbrev pub policy_failure : StepOutcome → Bool
  policy_failure s = is_failure s && is_policy_step p s.name

  abbrev pub policy_success : StepOutcome → Bool
  policy_success s = conclusion_eq s.conclusion success && is_policy_step p s.name

  unfoldable pub classify_clean : CheckRun → List StepOutcome → ExecutionClass
  classify_clean passed steps =
      if_let (find? policy_success (reverse steps)) (λ s. verified s.name)
        (unclassified no_successful_step)
  classify_clean _ steps = unclassified no_failing_step

  unfoldable pub classify_failures : CheckRun → List StepOutcome → ExecutionClass
  unfolding classify_clean
  classify_failures job steps =
      if_let (find? setup_failure steps) (λ s. preflight_failed s.name)
        (if_let (find? prerequisite_failure steps) (λ s. prerequisite_missing s.name)
          (if_let (find? policy_failure steps) (λ s. policy_step_failed s.name)
            (if_let (find? is_failure steps)
              (λ s.
                unclassified
                  (if is_post s.name then failure_outside_policy_step else no_failing_step))
              (classify_clean job steps))))

  unfoldable pub classify_started : CheckRun → List StepOutcome → ExecutionClass
  unfolding classify_failures
  classify_started job steps =
      if is_nil steps then unclassified no_step_evidence else classify_failures job steps

unfoldable pub classify : Option CheckRun → List StepOutcome → PhaseSignatures → ExecutionClass
unfolding classify_started
classify none steps p = not_started
classify (some missing) steps p = not_started
classify (some pending) steps p = unclassified not_concluded
classify (some job) steps p = classify_started p job steps
