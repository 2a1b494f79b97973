-- ===== src/Done/Facts.antt =====
-- crates/squabble-core/src/done.rs: the facts about a pull request, the items of a verdict, and the
-- reading of the pull request's body.
use cicd_squabbler.Prelude.{
  lines, ℕ, zero, suc, ◌-◌, Bool, false, ◌&&◌, ◌||◌, Option, none, some, List, [], ◌∷◌, map, is_nil,
  find?, length, is_some, unwrap_or, if◌then◌else◌, Str, codes, trim, contains, strip_prefix,
  strip_suffix, is_digit,
}
use cicd_squabbler.Gate.{CheckRun}

abbrev pub default_review_apps : List Str
default_review_apps =
    codes "coderabbitai"
    ∷ codes "copilot-pull-request-reviewer"
    ∷ codes "sonarqubecloud"
    ∷ codes "codacy-production"
    ∷ []

abbrev pub accounted_rule_types : List Str
accounted_rule_types =
    codes "required_status_checks"
    ∷ codes "pull_request"
    ∷ codes "deletion"
    ∷ codes "non_fast_forward"
    ∷ codes "creation"
    ∷ codes "update"
    ∷ codes "required_linear_history"
    ∷ codes "required_signatures"
    ∷ codes "required_deployments"
    ∷ codes "code_scanning"
    ∷ []

pub data PrState : Type 0 where
  opened merged closed : PrState

pub data Mergeability : Type 0 where
  mergeable conflicting unknown : Mergeability

pub record Observed : Type 0 where
  pub name : Str
  pub producer : Str
  pub run : CheckRun

pub record Thread : Type 0 where
  pub author : Str
  pub path : Option Str
  pub line : Option ℕ
  pub outdated : Bool
  pub url : Str

pub record UnverifiedCommit : Type 0 where
  pub oid : Str
  pub state : Str
  pub author : Str

pub record PrFacts : Type 0 where
  pub state : PrState
  pub is_draft : Bool
  pub mergeable : Mergeability
  pub merge_state : Str
  pub review_decision : Option Str
  pub auto_merge : Option Str
  pub required_contexts : List Str
  pub observed : List Observed
  pub unresolved_threads : List Thread
  pub changes_requested_by : List Str
  pub rule_types : List Str
  pub unverified_commits : List UnverifiedCommit
  pub body : Str

pub data Item : Type 0 where
  conflicting_item mergeability_unknown draft branch_behind merge_queue awaiting_deployment : Item
  required_not_satisfied : (context : Str) (run : CheckRun) → Item
  check_failed : (context producer : Str) → Item
  unresolved_thread : Thread → Item
  changes_requested : (reviewer : Str) → Item
  review_bot_pending : (producer context : Str) → Item
  auto_merge_not_armed : (merge_state : Str) → Item
  wrong_merge_method : (method : Str) → Item
  unverified_commits_item : (commits : List UnverifiedCommit) → Item
  awaiting_approval : (review_decision : Str) → Item
  awaiting_human_merge : (merge_state : Str) → Item

abbrev pub next_is_digit : Str → Bool
next_is_digit [] = false
next_is_digit (c ∷ s) = is_digit c

abbrev pub digit_follows : Option Str → Bool
digit_follows none = false
digit_follows (some rest) = next_is_digit rest

-- `match_indices(pat)` gives the matches that do not overlap: behind a match, the rest of its
-- characters (`skip` of them) start no other match.
unfoldable pub digit_after : Str → ℕ → Str → Bool
digit_after pat skip [] = false
digit_after pat (suc skip) (c ∷ s) = digit_after pat skip s
digit_after pat zero (c ∷ s) =
    let found = strip_prefix pat (c ∷ s) in
    let later = digit_after pat (if is_some found then length pat - 1 else 0) s in
    digit_follows found || later

unfoldable pub has_issue_ref : Str → Bool
unfolding digit_after
has_issue_ref line =
    digit_after (codes "#") 0 line
    || digit_after (codes "/issues/") 0 line
    || digit_after (codes "/pull/") 0 line

unfoldable pub acknowledged_in : Str → Str → Option Str
acknowledged_in body context =
    find? (λ l. contains l context && has_issue_ref l) (map trim (lines body))

pub record Verdict : Type 0 where
  pub agent_items : List Item
  pub held_by_human : List Item
  pub evidence_free : List Str
  pub notes : List Str

unfoldable pub is_done : Verdict → Bool
is_done v = is_nil v.agent_items

unfoldable pub strip_bot : Str → Str
strip_bot login = unwrap_or (strip_suffix (codes "[bot]") login) login
