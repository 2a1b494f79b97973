-- ===== src/Gate.antt =====
-- crates/squabble-core/src/gate.rs: the required checks of a branch, the runs that are meant to
-- satisfy them, and the state that the gate computes from those runs. `for_context` is
-- `CheckRun::for_context`, `cause_remedy` is `MissingCause::remedy`, and `remedy` is
-- `RequiredCheck::remedy`.
pub mod Runs
pub mod States
mod Samples
use cicd_squabbler.Prelude.{
  ℕ, Bool, true, false, not, ◌||◌, Option, none, some, List, [], ◌∷◌, all, any, is_nil, filter, leb,
  if◌then◌else◌, Str, codes, is_lit,
}

pub data CheckRun : Type 0 where
  missing pending failed skipped passed : CheckRun

-- `match conclusion { Some("SUCCESS") => … }`, and the status only where no arm takes it.
unfoldable pub from_github : Option Str → Option Str → CheckRun
from_github status conclusion =
    if is_lit conclusion "SUCCESS"
    then passed
    else if is_lit conclusion "SKIPPED" || is_lit conclusion "NEUTRAL"
    then skipped
    else if is_lit conclusion "FAILURE"
        || is_lit conclusion "ERROR"
        || is_lit conclusion "TIMED_OUT"
        || is_lit conclusion "CANCELLED"
        || is_lit conclusion "STARTUP_FAILURE"
    then failed
    else if is_lit status "COMPLETED"
    then failed
    else pending

unfoldable pub rank : CheckRun → ℕ
rank failed = 4
rank missing = 3
rank pending = 2
rank skipped = 1
rank passed = 0

-- `max_by_key`: of two elements with the same key the later one is kept.
unfoldable pub max_by_rank : CheckRun → List CheckRun → CheckRun
unfolding rank
max_by_rank best [] = best
max_by_rank best (r ∷ rs) = max_by_rank (if leb (rank best) (rank r) then r else best) rs

unfoldable pub for_context : List CheckRun → CheckRun
unfolding max_by_rank
for_context [] = missing
for_context (r ∷ rs) = max_by_rank r rs

pub data MissingCause : Type 0 where
  no_such_job dead_action_pin actions_policy_refusal moved_upstream_coordinate : MissingCause
  allow_list_admission_required empty_jobs_map not_triggered_on_pull_request unknown : MissingCause

unfoldable pub cause_remedy : MissingCause → Str
cause_remedy no_such_job =
    codes "Remove the context, or rename it to match a real job exactly (names are case-sensitive)."
cause_remedy dead_action_pin =
    codes
      "The action repo is gone. Repoint `uses:` at its live location; do NOT vendor it per-consumer."
cause_remedy actions_policy_refusal =
    codes
      "Repository settings: populate `patterns_allowed`, or set allowed_actions to `all`. No workflow edit can fix this."
cause_remedy moved_upstream_coordinate =
    codes
      "Repoint `uses:` at the canonical owner/repo and KEEP the same pin; a moved reusable coordinate dies as `startup_failure` with zero jobs."
cause_remedy allow_list_admission_required =
    codes
      "Add the canonical `owner/repo@*` to the selected-actions allow-list (or set allowed_actions to `all` with SHA pinning KEPT); no workflow edit can make the run start."
cause_remedy empty_jobs_map =
    codes "The workflow has no uncommented jobs. Instantiate one, or delete the workflow."
cause_remedy not_triggered_on_pull_request =
    codes "Add `pull_request` to the producing workflow's triggers, or stop requiring it on PRs."
cause_remedy unknown =
    codes "Diagnose by sampling PR-head check-runs AND commit statuses, not the default branch."

pub record RequiredCheck : Type 0 where
  pub required_context : Str
  pub run : CheckRun
  pub missing_cause : Option MissingCause

-- `RequiredCheck::new`
abbrev pub new_check : Str → CheckRun → RequiredCheck
new_check context run = record { required_context = context; run = run; missing_cause = none }

unfoldable pub with_cause : RequiredCheck → MissingCause → RequiredCheck
with_cause c cause = record c { missing_cause = some cause }

remedy_for : CheckRun → Option MissingCause → Option Str
remedy_for missing (some c) = some (cause_remedy c)
remedy_for _ _ = none

unfoldable pub remedy : RequiredCheck → Option Str
unfolding remedy_for
remedy c = remedy_for c.run c.missing_cause

abbrev pub satisfies : CheckRun → Bool
satisfies passed = true
satisfies skipped = true
satisfies _ = false

unfoldable pub is_satisfied : RequiredCheck → Bool
is_satisfied c = satisfies c.run

pub data GateState : Type 0 where
  blocked red green : GateState

pub record Gate : Type 0 where
  pub checks : List RequiredCheck

-- `matches!(run, CheckRun::Failed)`, and the same for the other runs.
abbrev pub is_failed : CheckRun → Bool
is_failed failed = true
is_failed _ = false

abbrev pub is_skipped : CheckRun → Bool
is_skipped skipped = true
is_skipped _ = false

abbrev pub is_missing : CheckRun → Bool
is_missing missing = true
is_missing _ = false

abbrev pub is_pending : CheckRun → Bool
is_pending pending = true
is_pending _ = false

abbrev pub is_passed : CheckRun → Bool
is_passed passed = true
is_passed _ = false

unfoldable pub evaluate : Gate → GateState
unfolding is_satisfied
evaluate g =
    if all is_satisfied g.checks
    then (if is_nil g.checks then blocked else green)
    else if any (λ c. is_failed c.run) g.checks
    then red
    else blocked

unfoldable pub evidence_free : Gate → List RequiredCheck
evidence_free g = filter (λ c. is_skipped c.run) g.checks

unfoldable pub unsatisfied : Gate → List RequiredCheck
unfolding is_satisfied
unsatisfied g = filter (λ c. not (is_satisfied c)) g.checks
