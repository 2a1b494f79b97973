-- ===== src/Execution/Describe.antt =====
-- crates/squabble-core/src/execution.rs: `Handoff::owner` and `ExecutionClass::explain`.
use cicd_squabbler.Prelude.{◌++◌, Str, codes}
use cicd_squabbler.Execution.{
  Handoff, admission, provisioning, prerequisites, policy_report, no_claim, ExecutionClass,
  not_started, preflight_failed, prerequisite_missing, policy_step_failed, verified, unclassified,
  reason_label,
}

unfoldable pub handoff_owner : Handoff → Str
handoff_owner admission =
    codes
      "owner of the refusing setting (Actions policy / allow-list / ruleset), with `squabble zero-job` for the attribution"
handoff_owner provisioning =
    codes
      "owner of the workflow's provisioning (runner label, toolchain, dependency and lock resolution) — no claim is made about the code"
handoff_owner prerequisites = codes "owner of the repository's tools/credentials/configuration"
handoff_owner policy_report = codes "the producing policy's owner; collect its report as evidence"
handoff_owner no_claim =
    codes "nobody yet: the evidence does not support a class, and the run still must be explained"

unfoldable pub explain : ExecutionClass → Str
unfolding reason_label
explain not_started =
    codes
      "no job exists, so no check report could be created — attribute it with `squabble zero-job` / `squabble chains`, never infer a cause from the conclusion alone"
explain (preflight_failed step) =
    codes "`"
    ++ step
    ++ codes "` failed before any policy step ran: this is provisioning, not a policy finding"
explain (prerequisite_missing step) =
    codes "`"
    ++ step
    ++ codes
        "` could not establish a declared tool/credential/configuration prerequisite, so the policy step never ran"
explain (policy_step_failed step) =
    codes "`"
    ++ step
    ++ codes
        "` ran and concluded failure: the policy was reached — read its own report for the finding"
explain (verified step) =
    codes "`"
    ++ step
    ++ codes
        "` ran and succeeded: an executed success, subject to the green-polarity check for vacuity"
explain (unclassified reason) =
    codes "no class claimed (" ++ reason_label reason ++ codes ") — the run still must be explained"
