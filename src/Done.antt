-- ===== src/Done.antt =====
-- crates/squabble-core/src/done.rs: the definition of done for a pull request. `evaluate` pushes to
-- three vectors; each is written here as the concatenation, in the order of the pushes, of what each
-- numbered step of the source pushes to it.
pub mod Facts
pub mod Acknowledged
pub mod Steps
pub mod IsDone
pub mod Describe
mod Samples
use cicd_squabbler.Prelude.{
  Bool, true, false, not, ◌&&◌, ◌||◌, Option, none, some, List, [], ◌∷◌, ◌++◌, map, any, is_nil,
  filter, is_some, unwrap_or, if◌then◌else◌, String, Str, codes, str_eq, mem, join, is_lit,
}
use cicd_squabbler.Gate
use cicd_squabbler.Gate.{
  CheckRun, missing, pending, failed, skipped, passed, RequiredCheck, new_check, Gate, for_context,
  is_failed, is_pending,
}
use Facts.{
  accounted_rule_types, PrState, opened, merged, closed, Mergeability, mergeable, conflicting,
  unknown, Observed, PrFacts, Item, conflicting_item, mergeability_unknown, draft, branch_behind,
  merge_queue, awaiting_deployment, required_not_satisfied, check_failed, unresolved_thread,
  changes_requested, review_bot_pending, auto_merge_not_armed, wrong_merge_method,
  unverified_commits_item, awaiting_approval, awaiting_human_merge, Verdict, acknowledged_in,
  strip_bot,
}

-- The run that decides context `c`.
unfoldable pub context_run : List Observed → Str → CheckRun
context_run observed c = for_context (map (λ o. o.run) (filter (λ o. str_eq o.name c) observed))

unfoldable pub required_gate : PrFacts → Gate
required_gate facts = record {
  checks = map (λ c. new_check c (context_run facts.observed c)) facts.required_contexts;
}

-- 1. Conflicts, drafts, a branch behind its base.
unfoldable pub mergeable_items : Mergeability → List Item
mergeable_items conflicting = conflicting_item ∷ []
mergeable_items unknown = mergeability_unknown ∷ []
mergeable_items mergeable = []

-- 2. Required checks that failed or are missing, and whether one is pending.
unfoldable pub required_items : List RequiredCheck → List Item
required_items [] = []
required_items (c ∷ cs) = elim c.run [
  | passed ↦ required_items cs
  | skipped ↦ required_items cs
  | pending ↦ required_items cs
  | missing ↦ required_not_satisfied c.required_context missing ∷ required_items cs
  | failed ↦ required_not_satisfied c.required_context failed ∷ required_items cs
]

unfoldable pub required_pending : List RequiredCheck → Bool
required_pending cs = any (λ c. is_pending c.run) cs

module _ (facts : PrFacts) where
  -- 2b. Red checks that the ruleset does not require: an item, or a note where the body acknowledges
  -- the check.
  abbrev pub is_red_extra : Observed → Bool
  is_red_extra o = is_failed o.run && not (mem o.name facts.required_contexts)

  red_item : Observed → Option Str → List Item
  red_item o none = check_failed o.name (strip_bot o.producer) ∷ []
  red_item o (some line) = []

  red_note : Observed → Option Str → List Str
  red_note o none = []
  red_note o (some line) =
      (codes "red check `" ++ o.name ++ codes "` acknowledged in the PR body: " ++ line) ∷ []

  unfoldable pub red_items : List Observed → List Item
  unfolding red_item
  red_items [] = []
  red_items (o ∷ os) =
      (if is_red_extra o then red_item o (acknowledged_in facts.body o.name) else [])
      ++ red_items os

  unfoldable pub red_notes : List Observed → List Str
  unfolding red_note
  red_notes [] = []
  red_notes (o ∷ os) =
      (if is_red_extra o then red_note o (acknowledged_in facts.body o.name) else [])
      ++ red_notes os

-- 3. Review bots that have not reported.
unfoldable pub bot_items : List Str → List Observed → List Item
bot_items review_apps [] = []
bot_items review_apps (o ∷ os) =
    (if is_pending o.run && mem (strip_bot o.producer) review_apps
      then review_bot_pending (strip_bot o.producer) o.name ∷ []
      else [])
    ++ bot_items review_apps os

module _ (facts : PrFacts) where
  abbrev pub has_rule : String → Bool
  has_rule rule = mem (codes rule) facts.rule_types

  unaccounted : List Str
  unaccounted =
      filter (λ t. not (str_eq t (codes "merge_queue")) && not (mem t accounted_rule_types))
        facts.rule_types

  -- 5 + 6. Automerge, where no merge queue is in force: what it leaves to the agent and to a human.
  unfoldable pub merge_agent_items : Option Str → Bool → List Item
  merge_agent_items (some m) pending_checks =
      if str_eq m (codes "SQUASH") || str_eq m (codes "MERGE")
      then []
      else wrong_merge_method m ∷ []
  merge_agent_items none pending_checks =
      if str_eq facts.merge_state (codes "BLOCKED") || pending_checks
      then auto_merge_not_armed facts.merge_state ∷ []
      else []

  unfoldable pub merge_human_items : Option Str → Bool → List Item
  merge_human_items (some m) pending_checks = []
  merge_human_items none pending_checks =
      if str_eq facts.merge_state (codes "BLOCKED") || pending_checks
      then []
      else awaiting_human_merge facts.merge_state ∷ []

  unfoldable pub awaiting_human : List Str → Bool
  awaiting_human review_apps =
      if is_lit facts.review_decision "REVIEW_REQUIRED"
      then true
      else if is_lit facts.review_decision "CHANGES_REQUESTED"
      then any (λ r. not (mem (strip_bot r) review_apps)) facts.changes_requested_by
        || is_nil facts.changes_requested_by
      else false

module _ (facts : PrFacts) (review_apps : List Str) where
  unfoldable pub agent_items_of : List RequiredCheck → List Item
  unfolding mergeable_items required_items required_pending red_items bot_items merge_agent_items
  agent_items_of checks =
      mergeable_items facts.mergeable
      ++ (if facts.is_draft then draft ∷ [] else [])
      ++ (if str_eq facts.merge_state (codes "BEHIND") then branch_behind ∷ [] else [])
      ++ required_items checks
      ++ red_items facts facts.observed
      ++ map unresolved_thread facts.unresolved_threads
      ++ map (λ r. changes_requested (strip_bot r)) facts.changes_requested_by
      ++ bot_items review_apps facts.observed
      ++ (if has_rule facts "merge_queue" then merge_queue ∷ [] else [])
      ++ (if has_rule facts "required_signatures" && not (is_nil facts.unverified_commits)
          then unverified_commits_item facts.unverified_commits ∷ []
          else [])
      ++ (if has_rule facts "merge_queue"
          then []
          else merge_agent_items facts facts.auto_merge (required_pending checks))

  unfoldable pub human_items_of : List RequiredCheck → List Item
  unfolding required_pending awaiting_human merge_human_items
  human_items_of checks =
      (if has_rule facts "required_deployments" then awaiting_deployment ∷ [] else [])
      ++ (if awaiting_human facts review_apps
          then awaiting_approval (unwrap_or facts.review_decision []) ∷ []
          else [])
      ++ (if has_rule facts "merge_queue"
          then []
          else merge_human_items facts facts.auto_merge (required_pending checks))

  notes_of : List RequiredCheck → List Str
  unfolding required_pending red_notes unaccounted agent_items_of human_items_of
  notes_of checks =
      (if is_nil facts.required_contexts
        then codes
            "no required status checks on the base branch — automerge would merge on arming, before any review bot reports"
          ∷ []
        else [])
      ++ red_notes facts facts.observed
      ++ codes
          "code-scanning alerts introduced by this PR are NOT yet evaluated (PR-minus-base set difference is follow-up work)"
        ∷ []
      ++ (if is_nil (unaccounted facts)
          then []
          else (codes "rule types not evaluated here: " ++ join (codes ", ") (unaccounted facts))
            ∷ [])
      ++ (if is_nil (agent_items_of checks)
            && is_some facts.auto_merge
            && not (required_pending checks)
            && is_nil (human_items_of checks)
            && str_eq facts.merge_state (codes "BLOCKED")
          then (codes
                "every evaluated condition is met and automerge is armed, yet GitHub reports BLOCKED — something unevaluated holds it (rule types: "
              ++ join (codes ", ") facts.rule_types
              ++ codes ")")
            ∷ []
          else [])

  -- The `match` on the state, with its early returns.
  evaluate_state : PrState → Gate → List Str → Verdict
  unfolding agent_items_of human_items_of notes_of
  evaluate_state closed gate free = record {
    agent_items = [];
    held_by_human = [];
    evidence_free = free;
    notes = codes "PR is closed without merging — nothing further to land" ∷ [];
  }
  evaluate_state merged gate free = record {
    agent_items = map unresolved_thread facts.unresolved_threads;
    held_by_human = [];
    evidence_free = free;
    notes = [];
  }
  evaluate_state opened gate free = record {
    agent_items = agent_items_of gate.checks;
    held_by_human = human_items_of gate.checks;
    evidence_free = free;
    notes = notes_of gate.checks;
  }

  unfoldable pub evaluate : Verdict
  unfolding evaluate_state
  evaluate =
      let gate = required_gate facts in
      evaluate_state facts.state gate (map (λ c. c.required_context) (Gate.evidence_free gate))
