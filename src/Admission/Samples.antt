-- ===== src/Admission/Samples.antt =====
-- One policy, request and snapshot, and the theorems about admission applied to them.
use cicd_squabbler.Prelude.{
  ℕ, ◌+◌, ◌*◌, ◌<◌, ◌≡◌, refl, ◌↔◌, some, true, false, Str, codes, str_eq, arith,
}
use cicd_squabbler.Admission.{
  AdmissionPolicy, AdmissionRequest, BudgetSnapshot, ProjectedCost, run_ci, automation, unapproved,
  known, admit, queue, estate_inflight_cap_reached, u64_end, reserved_minutes, valid_sha,
  admit_by_evidence, admit_by_cost, admit_by_topology, admit_known, admit_by_capacity,
  evaluate_admission,
}
use cicd_squabbler.Admission.Sound.{
  reserved_minutes-eq-some_iff, IsSha, valid_sha_iff, IsEvidenced, IsAdmissible,
  evaluate_admission-admit_iff,
}
use cicd_squabbler.Admission.Priority.{is_deny, HasEvidence, evaluate_admission-deny_iff}

abbrev sha : Str
sha = codes "0123456789abcdef0123456789abcdef01234567"

abbrev policy : AdmissionPolicy
policy = record {
  max_snapshot_age_seconds = 60;
  max_inflight_estate = 4;
  max_inflight_repository = 1;
  max_open_automation_prs_estate = 5;
  max_open_automation_prs_repository = 1;
  max_reserved_minutes_per_day = 500;
  max_reserved_minutes_per_change = 100;
  max_automatic_workflows_per_change = 1;
  max_runner_jobs_per_change = 6;
  allow_new_workflow_files = false;
  allow_trigger_expansion = false;
}

abbrev cost : ProjectedCost
cost = record {
  topology = known;
  automatic_workflows = 1;
  runner_jobs = 2;
  max_job_timeout_minutes = 10;
  fixed_runner_minutes = 1;
  new_workflow_files = 0;
  trigger_expansions = 0;
}

abbrev request : AdmissionRequest
request = record {
  repository_id = 42;
  head_sha = sha;
  operation = run_ci;
  producer = automation;
  approval = unapproved;
  projected = cost;
}

abbrev snapshot_with : ℕ → BudgetSnapshot
snapshot_with inflight = record {
  captured_at_unix_seconds = 1_799_999_999;
  data_complete = true;
  observed_head_sha = sha;
  estate_inflight = inflight;
  repository_inflight = 0;
  estate_open_automation_prs = 0;
  repository_open_automation_prs = 0;
  reserved_minutes_today = 0;
}

abbrev now : ℕ
now = 1_800_000_000

abbrev idle : BudgetSnapshot
idle = snapshot_with 0

abbrev busy : BudgetSnapshot
busy = snapshot_with 4

stages_opened : Unit {0}
unfolding evaluate_admission admit_by_evidence valid_sha str_eq admit_by_cost reserved_minutes
    admit_by_topology admit_known admit_by_capacity
stages_opened = tt

admitted : evaluate_admission (some policy) request (some idle) now ≡ admit 21
unfolding stages_opened
admitted = refl

queued :
    evaluate_admission (some policy) request (some busy) now ≡ queue estate_inflight_cap_reached
unfolding stages_opened
queued = refl

sha-IsSha : IsSha sha
unfolding valid_sha
sha-IsSha = (valid_sha_iff sha).0 refl

-- The load plays no part in the evidence.
evidenced : (inflight : ℕ) → IsEvidenced policy request (snapshot_with inflight) now 21
evidenced inflight = record {
  complete = refl;
  past = omega arith;
  recent = omega arith;
  sha = sha-IsSha;
  same_head = refl;
  cost = refl;
  fits = omega arith;
}

reserved_minutes-eq-some_iff_example :
    (reserved_minutes cost ≡ some 21) ↔ ((2 * 10 + 1 ≡ 21) × (21 < u64_end))
reserved_minutes-eq-some_iff_example = reserved_minutes-eq-some_iff cost 21

evaluate_admission-admit_iff_example :
    (evaluate_admission (some policy) request (some idle) now ≡ admit 21)
    ↔ IsAdmissible (some policy) request (some idle) now 21
evaluate_admission-admit_iff_example =
    evaluate_admission-admit_iff (some policy) request (some idle) now 21

evaluate_admission-deny_iff_example :
    (is_deny (evaluate_admission (some policy) request (some busy) now) ≡ true)
    ↔ ¬ HasEvidence (some policy) request (some busy) now
evaluate_admission-deny_iff_example =
    evaluate_admission-deny_iff (some policy) request (some busy) now
