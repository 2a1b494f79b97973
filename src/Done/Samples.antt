-- ===== src/Done/Samples.antt =====
-- A pull request that waits for its owner, and the theorems about done applied to it.
use cicd_squabbler.Prelude.{
  lines, ◌≡◌, refl, ◌↔◌, ◌≢◌, some, true, false, [], ◌∷◌, ◌++◌, Str, codes, str_eq, trim, mem,
  strip_suffix, contains, split, is_digit, strip_prefix, arith,
}
use cicd_squabbler.Gate
use cicd_squabbler.Gate.{CheckRun, red, green, pending, passed, failed, for_context}
use cicd_squabbler.Done.Facts.{
  default_review_apps, opened, mergeable, Observed, PrFacts, awaiting_approval, is_done, strip_bot,
  acknowledged_in, has_issue_ref,
}
use cicd_squabbler.Done.{
  required_gate, required_pending, context_run, evaluate, agent_items_of, human_items_of,
}
use cicd_squabbler.Done.IsDone.{Settles, is_done_iff, is_done-gate}
use cicd_squabbler.Done.Acknowledged.{RefIn, has_issue_ref-issues_link}

abbrev seen : Str → Str → CheckRun → Observed
seen name producer run = record { name = name; producer = producer; run = run }

-- Armed with squash, one required check pending, an approval missing, and a red check that the body
-- acknowledges.
abbrev waiting : PrFacts
waiting = record {
  state = opened;
  is_draft = false;
  mergeable = mergeable;
  merge_state = codes "BLOCKED";
  review_decision = some (codes "REVIEW_REQUIRED");
  auto_merge = some (codes "SQUASH");
  required_contexts = codes "build" ∷ [];
  observed =
      seen (codes "build") (codes "actions") pending
      ∷ seen (codes "lint") (codes "actions") failed
      ∷ seen (codes "review") (codes "coderabbitai[bot]") passed
      ∷ [];
  unresolved_threads = [];
  changes_requested_by = [];
  rule_types = codes "pull_request" ∷ [];
  unverified_commits = [];
  body = codes "Fixes things.\n  lint is tracked in #12\n";
}

steps_opened : Unit {0}
unfolding evaluate agent_items_of human_items_of required_gate context_run for_context
    acknowledged_in lines has_issue_ref is_done strip_bot str_eq trim mem strip_suffix contains
    split is_digit strip_prefix
steps_opened = tt

waiting-done :
    (is_done (evaluate waiting default_review_apps) ≡ true)
    × ((evaluate waiting default_review_apps).held_by_human
        ≡ awaiting_approval (codes "REVIEW_REQUIRED") ∷ [])
unfolding steps_opened
waiting-done = (refl, refl)

is_done_iff_example :
    (is_done (evaluate waiting default_review_apps) ≡ true)
    ↔ Settles opened waiting default_review_apps
is_done_iff_example = is_done_iff waiting default_review_apps

is_done-gate_example :
    (Gate.evaluate (required_gate waiting) ≢ red)
    × ((Gate.evaluate (required_gate waiting) ≡ green) ↔ (
        (waiting.required_contexts ≢ [])
        × (required_pending (required_gate waiting).checks ≡ false)))
is_done-gate_example = is_done-gate waiting default_review_apps refl waiting-done.0

hash_is_ref : has_issue_ref (codes "lint: #12") ≡ true
unfolding steps_opened
hash_is_ref = refl

has_issue_ref-issues_link_example :
    (has_issue_ref (codes "lint: o" ++ (codes "/issues/issues/" ++ codes "12")) ≡ false)
    × RefIn (codes "/issues/") (codes "lint: o" ++ (codes "/issues/issues/" ++ codes "12"))
unfolding is_digit
has_issue_ref-issues_link_example =
    has_issue_ref-issues_link (codes "lint: o") (codes "12") (omega arith) (refl, (refl, tt))
      (λ e. cc)
