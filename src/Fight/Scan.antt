-- ===== src/Fight/Scan.antt =====
-- crates/squabble-fight/src/lib.rs, `structural_scan`: latent issues that are not themselves a
-- required check, and the plan that reports them beside the checks.
use cicd_squabbler.Prelude.{
  Bool, false, not, ◌&&◌, ◌||◌, Option, none, some, unwrap_or, ◌>>=◌, List, [], ◌∷◌, ◌++◌, is_nil,
  length, any, filter, map, if_let, if◌then◌else◌, Str, codes, str_eq, str_lt, contains,
  to_ascii_lowercase, join, mem,
}
use cicd_squabbler.Gate.{RequiredCheck, Gate, unsatisfied}
use cicd_squabbler.Moves.{misconfigured_gate, hypatia_fleet, dispatch_fix}
use cicd_squabbler.Moves.Describe.{quoted}
use cicd_squabbler.Outcome.{Outcome, Escalation, OwnerAssignment}
use cicd_squabbler.Diagnose.{Diagnosis, diagnose_with_hints}
use cicd_squabbler.Workflows.{
  WorkflowInfo, ActionsPolicyFacts, is_selected, first_uncovered, classify_with_policy,
}
use cicd_squabbler.Fight.{
  RepoContext, Tree, hints_from, Buckets, bucket, selfwon, summary_of, ungrounded,
}

-- `v.sort()` and `v.dedup()` on strings.
insert_sorted : Str → List Str → List Str
insert_sorted s [] = s ∷ []
insert_sorted s (t ∷ ts) =
    let rest = insert_sorted s ts in if str_lt t s then t ∷ rest else s ∷ (t ∷ ts)

unfoldable pub sort_strs : List Str → List Str
unfolding insert_sorted
sort_strs [] = []
sort_strs (s ∷ ss) = insert_sorted s (sort_strs ss)

unfoldable pub dedup : List Str → List Str
dedup [] = []
dedup (s ∷ ss) =
    let rest = dedup ss in
    elim rest [ [] ↦ s ∷ [] | t ∷ ts ↦ if str_eq s t then t ∷ ts else s ∷ (t ∷ ts) ]

unfoldable pub is_gate_like : Str → Option Str → Bool
is_gate_like file name =
    let hay = to_ascii_lowercase (file ++ (codes " " ++ unwrap_or name [])) in
    contains hay (codes "well-known")
    || (contains hay (codes "wellknown")
        || (contains hay (codes "security")
            || (contains hay (codes "governance")
                || (contains hay (codes "rsr")
                    || (contains hay (codes "scorecard") || contains hay (codes "compliance"))))))

unfoldable pub already_owned : List OwnerAssignment → Str → Bool
already_owned assignments check = any (λ a. str_eq a.check check) assignments

-- (a)
unfoldable pub missing_wellknown : Tree → List Str
missing_wellknown tree =
    (if tree.exists (codes ".well-known/ai.txt") then [] else codes "ai.txt" ∷ [])
    ++ (if tree.exists (codes ".well-known/humans.txt") then [] else codes "humans.txt" ∷ [])

unfoldable pub wellknown_escalations : List RequiredCheck → Tree → List Escalation
unfolding missing_wellknown
wellknown_escalations reds tree =
    if any (λ c. contains (to_ascii_lowercase c.required_context) (codes "well-known")) reds
      && not (is_nil (missing_wellknown tree))
    then record {
      check = codes "governance / Well-Known (RFC 9116 + RSR)";
      group = hypatia_fleet;
      obligation = dispatch_fix;
      evidence =
          codes "missing .well-known/"
          ++ (join (codes ", .well-known/") (missing_wellknown tree)
              ++ codes " — likely underlying cause; content authoring, out of lane");
    }
      ∷ []
    else []

abbrev pub gate_name : WorkflowInfo → Str
gate_name w = unwrap_or w.name w.file

abbrev pub path_filter_assignment : Str → WorkflowInfo → OwnerAssignment
path_filter_assignment owner w = record {
  check = gate_name w;
  owner = owner;
  disposition = misconfigured_gate (
      quoted w.file
      ++ codes
          " is path-filtered (on.*.paths); if required, off-path PRs strand it as Expected → blocked");
  rationale =
      codes
        "confirm whether this is a required check; if so, drop the path filter and gate inside an always-run job";
}

-- (b): the loop over the workflows, and the assignments made so far.
unfoldable pub path_filter_assignments :
    Str → List Str → List OwnerAssignment → List WorkflowInfo → List OwnerAssignment
unfolding is_gate_like already_owned
path_filter_assignments owner won made [] = made
path_filter_assignments owner won made (w ∷ ws) =
    path_filter_assignments owner won
      (if w.path_filtered
          && (is_gate_like w.file w.name
              && (not (mem w.file won) && not (already_owned made (gate_name w))))
        then made ++ (path_filter_assignment owner w ∷ [])
        else made)
      ws

-- (c)
unfoldable pub recipe_assignments : Tree → Str → Str → List OwnerAssignment
recipe_assignments tree slug recipe =
    if_let (tree.read recipe)
      (λ text.
        if contains text (codes "AGPL")
        then record {
          check = codes "container-build";
          owner = slug;
          disposition = misconfigured_gate (
              quoted recipe
              ++ codes " declares an AGPL licence label; estate policy bans AGPL (use MPL-2.0)");
          rationale =
              codes "licence edits are owner-only (doctrine #6) — flagged, never auto-edited";
        }
          ∷ []
        else [])
      []

-- (d)
unfoldable pub all_uncovered : ActionsPolicyFacts → List WorkflowInfo → List Str
all_uncovered p [] = []
all_uncovered p (w ∷ ws) =
    let rest = all_uncovered p ws in if_let (first_uncovered p w.external_uses) (λ u. u ∷ rest) rest

unfoldable pub permission_assignments :
    ActionsPolicyFacts → Str → List WorkflowInfo → List OwnerAssignment
unfolding all_uncovered sort_strs dedup
permission_assignments p slug workflows =
    let uncovered = dedup (sort_strs (all_uncovered p workflows)) in
    if is_selected p && not (is_nil uncovered)
    then record {
      check = codes "actions / repository permissions";
      owner = slug;
      disposition = misconfigured_gate (
          codes "`allowed_actions=selected` patterns do not cover: "
          ++ (join (codes ", ") uncovered
              ++ codes " — any run using them is refused at startup (jobs=0)"));
      rationale =
          if is_nil p.patterns_allowed
          then codes
              "estate default is `allowed_actions=all` with `sha_pinning_required=true` KEPT (issue #15 decision of record) — adopt that posture, or enumerate owner/repo@* patterns explicitly"
          else codes
              "add the missing `owner/repo@*` patterns to the selected-actions allowlist (or adopt `allowed_actions=all` with pinning kept)";
    }
      ∷ []
    else []

-- (e)
unfoldable pub pin_assignments : ActionsPolicyFacts → Str → List WorkflowInfo → List OwnerAssignment
unfolding sort_strs
pin_assignments p slug workflows =
    let pinned = sort_strs (
      map (λ w. quoted w.file ++ (codes " (" ++ (join (codes ", ") w.tag_pinned_uses ++ codes ")")))
        (filter (λ w. not (is_nil w.tag_pinned_uses)) workflows)) in
    if p.sha_pinning_required && not (is_nil pinned)
    then record {
      check = codes "actions / SHA pinning";
      owner = slug;
      disposition = misconfigured_gate (
          codes "tag/branch-pinned `uses:` under `sha_pinning_required=true`: "
          ++ (join (codes "; ") pinned ++ codes " — these refuse to start on the next trigger"));
      rationale =
          codes
            "SHA-pin the named refs at source (the squabbler's PinWorkflowActions move, issue #15); pinning strengthens, never weakens, the gate";
    }
      ∷ []
    else []

unfoldable pub scan_assignments :
    Tree
    → Str
    → RepoContext
    → List WorkflowInfo
    → List Str
    → Option ActionsPolicyFacts
    → List OwnerAssignment
unfolding path_filter_assignments recipe_assignments permission_assignments pin_assignments
scan_assignments tree slug context workflows won policy =
    path_filter_assignments (unwrap_or context.coordination_owner slug) won [] workflows
    ++ (recipe_assignments tree slug (codes "Containerfile")
        ++ (recipe_assignments tree slug (codes "Dockerfile")
            ++ if_let policy
                (λ p. permission_assignments p slug workflows ++ pin_assignments p slug workflows)
                []))

-- `plan_with_policy` once the checks are in their buckets.
unfoldable pub report_of :
    Gate
    → Str
    → Tree
    → RepoContext
    → List WorkflowInfo
    → Option ActionsPolicyFacts
    → Diagnosis
    → Buckets
    → Outcome
unfolding wellknown_escalations scan_assignments
report_of gate slug tree context workflows policy d b =
    let reds = unsatisfied gate in
    let escalations = b.escalations ++ wellknown_escalations reds tree in
    let owner_assignments =
      b.owner_assignments
      ++ scan_assignments tree slug context workflows (selfwon b.moves_attempted) policy in
    Outcome.red (record {
      summary =
          summary_of d.state (length reds) (length b.moves_attempted) (length escalations)
            (length owner_assignments);
      unsatisfied = reds;
      moves_attempted = b.moves_attempted;
      escalations = escalations;
      owner_assignments = owner_assignments;
      expert_verdicts = [];
      applied = [];
      blockers = b.blockers ++ ungrounded context workflows tree;
    })

unfoldable pub plan_with_policy :
    Gate
    → Str
    → Tree
    → RepoContext
    → List WorkflowInfo
    → Option ActionsPolicyFacts
    → (Str → Bool)
    → Option Outcome
unfolding hints_from bucket report_of
plan_with_policy gate slug tree context workflows policy startup_failed =
    let reds = unsatisfied gate in
    let classified = λ (c : RequiredCheck).
      classify_with_policy workflows c slug policy (startup_failed c.required_context) in
    let d = diagnose_with_hints gate (hints_from classified (λ _. none) reds) in
    bucket reds d.proposed >>= λ b. some (report_of gate slug tree context workflows policy d b)

unfoldable pub plan : Gate → Str → Tree → RepoContext → List WorkflowInfo → Option Outcome
unfolding plan_with_policy
plan gate slug tree context workflows =
    plan_with_policy gate slug tree context workflows none (λ _. false)
