-- ===== src/Admission.antt =====
-- crates/squabble-core/src/admission.rs: the decision on one request for CI work. Counters are
-- natural numbers; `checked_mul` and `checked_add` on `u64` fail from 2 ^ 64 on. The body of
-- `evaluate_admission` is cut at its comments into functions that each end in a call of the next:
-- evidence, then reservation, then static policy, then capacity.
pub mod Sound
pub mod Priority
mod Samples
use cicd_squabbler.Prelude.{
  ℕ, ◌+◌, ◌-◌, ◌*◌, ◌^◌, Bool, true, false, not, ◌&&◌, ◌||◌, Option, none, some, List, [], ◌∷◌, all,
  ltb, leb, ◌==◌, if◌then◌else◌, Str, str_eq, str_len, is_hexdigit, ◌>>=◌,
}

pub record AdmissionPolicy : Type 0 where
  pub max_snapshot_age_seconds : ℕ
  pub max_inflight_estate : ℕ
  pub max_inflight_repository : ℕ
  pub max_open_automation_prs_estate : ℕ
  pub max_open_automation_prs_repository : ℕ
  pub max_reserved_minutes_per_day : ℕ
  pub max_reserved_minutes_per_change : ℕ
  pub max_automatic_workflows_per_change : ℕ
  pub max_runner_jobs_per_change : ℕ
  pub allow_new_workflow_files : Bool
  pub allow_trigger_expansion : Bool

pub data OperationClass : Type 0 where
  create_pull_request run_ci release deployment : OperationClass

unfoldable pub requires_explicit_approval : OperationClass → Bool
requires_explicit_approval release = true
requires_explicit_approval deployment = true
requires_explicit_approval _ = false

pub data ProducerClass : Type 0 where
  human_owner automation github_app : ProducerClass

pub data ApprovalState : Type 0 where
  unapproved human_approved : ApprovalState

pub data TopologyKnowledge : Type 0 where
  known dynamic unknown : TopologyKnowledge

pub record ProjectedCost : Type 0 where
  pub topology : TopologyKnowledge
  pub automatic_workflows : ℕ
  pub runner_jobs : ℕ
  pub max_job_timeout_minutes : ℕ
  pub fixed_runner_minutes : ℕ
  pub new_workflow_files : ℕ
  pub trigger_expansions : ℕ

abbrev pub u64_end : ℕ
u64_end = 2 ^ 64

unfoldable pub checked_mul : ℕ → ℕ → Option ℕ
checked_mul a b = if ltb (a * b) u64_end then some (a * b) else none

unfoldable pub checked_add : ℕ → ℕ → Option ℕ
checked_add a b = if ltb (a + b) u64_end then some (a + b) else none

unfoldable pub reserved_minutes : ProjectedCost → Option ℕ
unfolding checked_mul checked_add
reserved_minutes c = checked_mul c.runner_jobs c.max_job_timeout_minutes >>= λ m.
    checked_add m c.fixed_runner_minutes

pub record AdmissionRequest : Type 0 where
  pub repository_id : ℕ
  pub head_sha : Str
  pub operation : OperationClass
  pub producer : ProducerClass
  pub approval : ApprovalState
  pub projected : ProjectedCost

pub record BudgetSnapshot : Type 0 where
  pub captured_at_unix_seconds : ℕ
  pub data_complete : Bool
  pub observed_head_sha : Str
  pub estate_inflight : ℕ
  pub repository_inflight : ℕ
  pub estate_open_automation_prs : ℕ
  pub repository_open_automation_prs : ℕ
  pub reserved_minutes_today : ℕ

pub data AdmissionReason : Type 0 where
  missing_policy missing_budget_snapshot incomplete_budget_snapshot : AdmissionReason
  budget_snapshot_from_future stale_budget_snapshot invalid_head_sha : AdmissionReason
  head_sha_changed cost_overflow dynamic_topology unknown_topology : AdmissionReason
  workflow_files_added trigger_expanded privileged_operation_needs_approval : AdmissionReason
  automatic_workflow_cap_exceeded runner_job_cap_exceeded change_budget_exceeded : AdmissionReason
  estate_inflight_cap_reached repository_inflight_cap_reached : AdmissionReason
  estate_open_pr_cap_reached repository_open_pr_cap_reached : AdmissionReason
  daily_budget_exceeded : AdmissionReason

pub data AdmissionDecision : Type 0 where
  admit : (reserved : ℕ) → AdmissionDecision
  queue quarantine deny : (reason : AdmissionReason) → AdmissionDecision

unfoldable pub valid_sha : Str → Bool
unfolding str_len is_hexdigit
valid_sha sha = str_len sha == 40 && all is_hexdigit sha && not (all (λ b. b == b'0') sha)

abbrev is_create : OperationClass → Bool
is_create create_pull_request = true
is_create _ = false

abbrev is_approved : ApprovalState → Bool
is_approved human_approved = true
is_approved unapproved = false

module _ (policy : AdmissionPolicy) (request : AdmissionRequest) (snapshot : BudgetSnapshot) where
  unfoldable pub admit_by_day : ℕ → ℕ → AdmissionDecision
  admit_by_day reserved day_after_reservation =
      if ltb policy.max_reserved_minutes_per_day day_after_reservation
      then queue daily_budget_exceeded
      else admit reserved

  unfoldable pub admit_by_capacity : ℕ → ℕ → AdmissionDecision
  unfolding admit_by_day
  admit_by_capacity reserved day_after_reservation =
      if ltb policy.max_reserved_minutes_per_change reserved
      then queue change_budget_exceeded
      else if leb policy.max_inflight_estate snapshot.estate_inflight
      then queue estate_inflight_cap_reached
      else if leb policy.max_inflight_repository snapshot.repository_inflight
      then queue repository_inflight_cap_reached
      else if is_create request.operation
          && leb policy.max_open_automation_prs_estate snapshot.estate_open_automation_prs
      then queue estate_open_pr_cap_reached
      else if is_create request.operation
          && leb policy.max_open_automation_prs_repository snapshot.repository_open_automation_prs
      then queue repository_open_pr_cap_reached
      else admit_by_day reserved day_after_reservation

  unfoldable pub admit_known : ℕ → ℕ → AdmissionDecision
  unfolding requires_explicit_approval
  admit_known reserved day_after_reservation =
      if ltb 0 request.projected.new_workflow_files && not policy.allow_new_workflow_files
      then quarantine workflow_files_added
      else if ltb 0 request.projected.trigger_expansions && not policy.allow_trigger_expansion
      then quarantine trigger_expanded
      else if requires_explicit_approval request.operation && not (is_approved request.approval)
      then quarantine privileged_operation_needs_approval
      else if ltb policy.max_automatic_workflows_per_change request.projected.automatic_workflows
      then quarantine automatic_workflow_cap_exceeded
      else if ltb policy.max_runner_jobs_per_change request.projected.runner_jobs
      then quarantine runner_job_cap_exceeded
      else admit_by_capacity reserved day_after_reservation

  unfoldable pub admit_by_topology : TopologyKnowledge → ℕ → ℕ → AdmissionDecision
  admit_by_topology known reserved day_after_reservation =
      admit_known reserved day_after_reservation
  admit_by_topology dynamic reserved day_after_reservation = quarantine dynamic_topology
  admit_by_topology unknown reserved day_after_reservation = quarantine unknown_topology

  unfoldable pub admit_by_total : ℕ → Option ℕ → AdmissionDecision
  admit_by_total reserved none = deny cost_overflow
  admit_by_total reserved (some day_after_reservation) =
      admit_by_topology request.projected.topology reserved day_after_reservation

  unfoldable pub admit_by_cost : Option ℕ → AdmissionDecision
  unfolding admit_by_total checked_add
  admit_by_cost none = deny cost_overflow
  admit_by_cost (some reserved) =
      admit_by_total reserved (checked_add snapshot.reserved_minutes_today reserved)

  unfoldable pub admit_by_evidence : ℕ → AdmissionDecision
  admit_by_evidence now_unix_seconds =
      if not snapshot.data_complete
      then deny incomplete_budget_snapshot
      else if ltb now_unix_seconds snapshot.captured_at_unix_seconds
      then deny budget_snapshot_from_future
      else if ltb policy.max_snapshot_age_seconds
          (now_unix_seconds - snapshot.captured_at_unix_seconds)
      then deny stale_budget_snapshot
      else if not (valid_sha request.head_sha) || not (valid_sha snapshot.observed_head_sha)
      then deny invalid_head_sha
      else if not (str_eq request.head_sha snapshot.observed_head_sha)
      then deny head_sha_changed
      else admit_by_cost (reserved_minutes request.projected)

unfoldable pub evaluate_admission :
    Option AdmissionPolicy → AdmissionRequest → Option BudgetSnapshot → ℕ → AdmissionDecision
evaluate_admission none request snapshot now_unix_seconds = deny missing_policy
evaluate_admission (some policy) request none now_unix_seconds = deny missing_budget_snapshot
evaluate_admission (some policy) request (some snapshot) now_unix_seconds =
    admit_by_evidence policy request snapshot now_unix_seconds
