-- ===== src/Moves/Describe.antt =====
-- crates/squabble-core/src/moves.rs: the labels and the one-line descriptions. `describe` is
-- `Move::describe`; it is `none` where slicing a SHA for display panics.
use cicd_squabbler.Prelude.{Option, some, ◌>>=◌, ◌++◌, length, Str, codes, join, decimal}
use cicd_squabbler.Moves.{
  ExpertGroup, hypatia, hypatia_fleet, security, gate_triage, EscalationKind, assess_confidence,
  dispatch_fix, verify_claim, scan, OwnershipDisposition, should_be_added_to_ci, misconfigured_gate,
  owned_upstream, ownerless, LicenceFinding, needs_ground_truth, missing_licence_text,
  root_display_mismatch, header_drift, LicenceResolution, author_allowed,
  author_new_repo_else_owner_manual, owner_manual, unknown, resolution, Move,
  reconcile_required_context, inject_path_filter_pass_through, repin_reusable_workflow,
  resolve_and_rerun, ground_truth_check_names, licence_policy_drift, flag_non_functional_gate,
  escalate_to_expert, assign_gate_owner, pin_workflow_actions, reconcile_actions_policy,
  set_actions_allowed_all, repoint_to_canonical, allow_list_admission_required, short, proof,
}

unfoldable pub group_label : ExpertGroup → Str
group_label hypatia = codes "hypatia (analysis)"
group_label hypatia_fleet = codes "hypatia+fleet (analyse+fix)"
group_label proof = codes "proof (echidna)"
group_label security = codes "security (panic-attack)"
group_label gate_triage = codes "gate-triage (owner-facing)"

unfoldable pub kind_label : EscalationKind → Str
kind_label assess_confidence = codes "assess-confidence"
kind_label dispatch_fix = codes "dispatch-fix"
kind_label verify_claim = codes "verify-claim"
kind_label scan = codes "scan"

unfoldable pub disposition_label : OwnershipDisposition → Str
disposition_label should_be_added_to_ci = codes "should-be-added-to-ci"
disposition_label (misconfigured_gate _) = codes "misconfigured-gate"
disposition_label (owned_upstream _) = codes "owned-upstream"
disposition_label ownerless = codes "ownerless"

-- The text in backquotes.
abbrev pub quoted : Str → Str
quoted s = codes "`" ++ (s ++ codes "`")

disposition_text : OwnershipDisposition → Str
disposition_text should_be_added_to_ci = codes "should be added to CI"
disposition_text (misconfigured_gate detail) = codes "misconfigured gate: " ++ detail
disposition_text (owned_upstream repo) = codes "owned upstream in " ++ quoted repo
disposition_text ownerless = codes "no current owner"

finding_text : LicenceFinding → Str
finding_text needs_ground_truth = codes "ground-truth the concrete violation (REUSE / check-spdx)"
finding_text (missing_licence_text missing) =
    codes "LICENSES/ missing " ++ join (codes ", ") missing
finding_text (root_display_mismatch found) =
    codes "root LICENSE is " ++ (quoted found ++ codes "; estate display is MPL-2.0")
finding_text (header_drift files expected) =
    decimal (length files) ++ (codes " file(s) need per-file SPDX " ++ quoted expected)

resolution_text : LicenceResolution → Str
resolution_text author_allowed = codes "author-allowed: add canonical text"
resolution_text author_new_repo_else_owner_manual = codes "author for a new repo, else owner-manual"
resolution_text owner_manual = codes "owner-manual (A2): flag only, never auto-edit"
resolution_text unknown = codes "unknown until ground-truthed"

unfoldable pub describe : Move → Option Str
unfolding disposition_text finding_text resolution_text group_label kind_label short
describe (reconcile_required_context required emitted) = some (
    codes "reconcile required context "
    ++ (quoted required ++ (codes " → emitted name " ++ quoted emitted)))
describe (inject_path_filter_pass_through check workflow) = some (
    codes "inject path-filter pass-through for "
    ++ (quoted check ++ (codes " in " ++ quoted workflow)))
describe (repin_reusable_workflow reference from_sha to_sha) = short from_sha >>= λ from.
    (short to_sha >>= λ to.
    some (codes "re-pin " ++ (quoted reference ++ (codes " " ++ (from ++ (codes " → " ++ to))))))
describe (resolve_and_rerun branch) =
    some (codes "resolve conflicts on " ++ (quoted branch ++ codes " and re-run"))
describe (ground_truth_check_names workflow) =
    some (codes "ground-truth emitted check names for " ++ quoted workflow)
describe (licence_policy_drift check finding) = some (
    codes "licence-policy "
    ++ (quoted check
        ++ (codes ": "
            ++ (finding_text finding
                ++ (codes " [" ++ (resolution_text (resolution finding) ++ codes "]"))))))
describe (flag_non_functional_gate check evidence) = some (
    codes "flag "
    ++ (quoted check ++ (codes " as non-functional (unfixable from the PR side) — " ++ evidence)))
describe (escalate_to_expert check group obligation evidence) = some (
    codes "escalate "
    ++ (quoted check
        ++ (codes " to "
            ++ (group_label group
                ++ (codes " [" ++ (kind_label obligation ++ (codes "] — " ++ evidence)))))))
describe (assign_gate_owner check owner disposition rationale) = some (
    codes "assign "
    ++ (quoted check
        ++ (codes " → "
            ++ (quoted owner
                ++ (codes " [" ++ (disposition_text disposition ++ (codes "] — " ++ rationale)))))))
describe (pin_workflow_actions workflow refs) = some (
    codes "SHA-pin "
    ++ (decimal (length refs)
        ++ (codes " tag-pinned `uses:` in "
            ++ (quoted workflow
                ++ (codes " ("
                    ++ (join (codes ", ") refs
                        ++ codes
                            ") — the repo requires full-length SHAs (`sha_pinning_required`), so tags refuse to start"))))))
describe (reconcile_actions_policy blocked_ref add_patterns) = some (
    codes "reconcile the Actions allowlist: add "
    ++ (join (codes ", ") add_patterns
        ++ (codes " so "
            ++ (quoted blocked_ref
                ++ codes
                    " can start (`allowed_actions=selected` coverage gap; keep `sha_pinning_required=true`)"))))
describe set_actions_allowed_all = some (
    codes
      "set `allowed_actions=all` while KEEPING `sha_pinning_required=true` — an empty `selected` allowlist refuses every external `uses:` at startup; the estate default posture makes it moot without weakening any check")
describe (repoint_to_canonical written canonical pin) = some (
    codes "repoint "
    ++ (quoted written
        ++ (codes " to canonical "
            ++ (quoted (canonical ++ (codes "@" ++ pin))
                ++ codes
                    " — SAME pin, carried unchanged; a moved reusable coordinate dies as a zero-job `startup_failure` (\"workflow was not found\") that no PR check list shows"))))
describe (allow_list_admission_required written canonical pattern) = some (
    codes "admit "
    ++ (quoted pattern
        ++ (codes " to the caller's selected-actions allow-list so the canonical "
            ++ (quoted canonical
                ++ (codes " behind "
                    ++ (quoted written
                        ++ codes
                            " can start — the run is refused at startup (jobs=0) until it is admitted"))))))
