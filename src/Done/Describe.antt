-- ===== src/Done/Describe.antt =====
-- crates/squabble-core/src/done.rs, `Item::describe`: the line of the report for each item.
use cicd_squabbler.Prelude.{
  [], if_let, if◌then◌else◌, unwrap_or, map, ◌++◌, length, Str, codes, decimal, join,
}
use cicd_squabbler.Gate.{CheckRun, missing, pending, passed, failed, skipped}
use cicd_squabbler.Moves.{slice_to}
use cicd_squabbler.Done.Facts.{
  UnverifiedCommit, Thread, Item, conflicting_item, mergeability_unknown, draft, branch_behind,
  merge_queue, awaiting_deployment, required_not_satisfied, check_failed, unresolved_thread,
  changes_requested, review_bot_pending, auto_merge_not_armed, wrong_merge_method,
  unverified_commits_item, awaiting_approval, awaiting_human_merge,
}

abbrev pub quoted : Str → Str
quoted s = codes "`" ++ s ++ codes "`"

-- `{run:?}`
abbrev pub run_text : CheckRun → Str
run_text missing = codes "Missing"
run_text pending = codes "Pending"
run_text passed = codes "Passed"
run_text failed = codes "Failed"
run_text skipped = codes "Skipped"

unfoldable pub thread_text : Thread → Str
thread_text t =
    codes "unresolved review thread by "
    ++ t.author
    ++ if_let t.path (λ p. codes " on " ++ p) []
    ++ (if t.outdated then codes " (outdated)" else [])
    ++ codes " — act on it or reply and resolve: "
    ++ t.url

unfoldable pub commit_text : UnverifiedCommit → Str
unfolding slice_to
commit_text c =
    unwrap_or (slice_to 10 c.oid) c.oid ++ codes " " ++ c.state ++ codes " by " ++ c.author

unfoldable pub item_text : Item → Str
unfolding thread_text commit_text
item_text conflicting_item = codes "merge conflict — resolve it in the files and push"
item_text mergeability_unknown =
    codes "mergeability not computed yet (common right after a push) — re-run"
item_text draft = codes "PR is a draft — mark it ready for review"
item_text (required_not_satisfied context run) =
    codes "required check "
    ++ quoted context
    ++ codes " is "
    ++ run_text run
    ++ codes " — fix it or the ruleset"
item_text (check_failed context producer) =
    codes "check "
    ++ quoted context
    ++ codes " ("
    ++ producer
    ++ codes
        ") failed — not required, but a red check is still a finding; fix it here, or file an issue and add a PR-body line naming "
    ++ quoted context
    ++ codes " with its link (#N)"
item_text (unresolved_thread t) = thread_text t
item_text (changes_requested reviewer) =
    reviewer
    ++ codes
        " requests changes — act on them, or dismiss the review with a reason (a finding deferred to an issue is dismissed with its link)"
item_text (review_bot_pending producer context) =
    codes "review bot "
    ++ producer
    ++ codes " has not reported ("
    ++ quoted context
    ++ codes " pending) — its output cannot have been read yet; wait for it"
item_text (auto_merge_not_armed merge_state) =
    codes "automerge is not armed while the PR waits on requirements (mergeStateStatus="
    ++ merge_state
    ++ codes ") — arm it with squash"
item_text (wrong_merge_method method) =
    codes "automerge is armed with "
    ++ method
    ++ codes " — re-arm with SQUASH (or MERGE for a proof PR)"
item_text branch_behind = codes "branch is behind its base — update it"
item_text merge_queue =
    codes
      "base branch uses a merge queue — verify-satisfied cannot evaluate queue entry, so it refuses rather than pass vacuously"
item_text (unverified_commits_item commits) =
    codes "the base requires signed commits and "
    ++ decimal (length commits)
    ++ codes " commit(s) here are not verified ("
    ++ join (codes ", ") (map commit_text commits)
    ++ codes
        ") — GitHub blocks the merge, squash included; re-sign them on the branch (`git rebase --exec 'git commit --amend --no-edit -S' <merge-base>`) and push with --force-with-lease"
item_text (awaiting_approval review_decision) =
    codes "awaiting a human review (reviewDecision=" ++ review_decision ++ codes ")"
item_text awaiting_deployment = codes "awaiting a required deployment"
item_text (awaiting_human_merge merge_state) =
    codes "nothing is pending, so GitHub will not arm automerge (mergeStateStatus="
    ++ merge_state
    ++ codes ") — awaiting a human merge"
