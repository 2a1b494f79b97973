-- ===== src/Board.antt =====
-- crates/squabble-core/src/board.rs: where an open pull request goes on the board, and why. Dates are
-- in Board/Dates and the text of the board in Board/Rows and Board/Render.
mod Samples
pub mod Dates
pub mod Places
pub mod Rows
pub mod Render
pub mod Fits
use cicd_squabbler.Prelude.{
  ℕ, ◌+◌, Bool, true, false, not, ◌&&◌, ◌||◌, ◌==◌, ltb, Option, none, some, is_lit, ◌>>=◌, List,
  [], ◌∷◌, if_let, if◌then◌else◌, Str, codes, str_eq, first_part, unwrap_or,
}
use cicd_squabbler.Prelude.Int.{ℤ, ◌-ℤ◌, ltb_ℤ}
use cicd_squabbler.Chains.{RepoId}
use cicd_squabbler.Board.Dates.{epoch_day}

pub record RepoGate : Type 0 where
  pub repo : RepoId
  pub required_contexts : ℕ
  pub required_approvals : ℕ

pub data Mergeable : Type 0 where
  mergeable conflicting unknown : Mergeable

pub record PrFacts : Type 0 where
  pub repo : RepoId
  pub number : ℕ
  pub title : Str
  pub url : Str
  pub author : Str
  pub head_ref : Str
  pub is_draft : Bool
  pub mergeable_state : Mergeable
  pub merge_state : Str
  pub review_decision : Option Str
  pub auto_merge_armed : Bool
  pub rollup : Option Str
  pub updated_at : Str

pub data Bucket : Type 0 where
  needs_you agent_work landing stale : Bucket

pub data Reason : Type 0 where
  no_required_gate approval_required clean_merge_by_hand draft conflict changes_requested checks_red
        behind arm_automerge mergeability_unknown armed_waiting stale_red_or_conflicting :
      Reason

unfoldable pub bucket_of : Reason → Bucket
bucket_of no_required_gate = needs_you
bucket_of approval_required = needs_you
bucket_of clean_merge_by_hand = needs_you
bucket_of armed_waiting = landing
bucket_of stale_red_or_conflicting = stale
bucket_of _ = agent_work

unfoldable pub is_red : PrFacts → Bool
is_red pr = is_lit pr.rollup "FAILURE" || is_lit pr.rollup "ERROR"

unfoldable pub is_conflicting : Mergeable → Bool
is_conflicting conflicting = true
is_conflicting _ = false

unfoldable pub is_unknown : Mergeable → Bool
is_unknown unknown = true
is_unknown _ = false

-- `age.is_some_and(|a| a > stale_days)`
unfoldable pub is_old : PrFacts → ℤ → ℤ → Bool
unfolding epoch_day ◌-ℤ◌
is_old pr today stale_days =
    if_let (epoch_day pr.updated_at) (λ d. ltb_ℤ stale_days (today -ℤ d)) false

-- The last two steps of `classify`.
unfoldable pub mergeable_reason : PrFacts → Reason
unfolding is_unknown str_eq
mergeable_reason pr =
    if str_eq pr.merge_state (codes "CLEAN")
    then clean_merge_by_hand
    else if is_unknown pr.mergeable_state || str_eq pr.merge_state (codes "UNKNOWN")
    then mergeability_unknown
    else arm_automerge

unfoldable pub classify : PrFacts → RepoGate → ℤ → ℤ → Reason
unfolding is_red is_conflicting is_old mergeable_reason
classify pr gate today stale_days =
    let red = is_red pr in
    let conflicts = is_conflicting pr.mergeable_state in
    if (red || conflicts) && is_old pr today stale_days
    then stale_red_or_conflicting
    else if gate.required_contexts == 0
    then no_required_gate
    else if pr.is_draft
    then draft
    else if conflicts
    then conflict
    else if is_lit pr.review_decision "CHANGES_REQUESTED"
    then changes_requested
    else if is_lit pr.review_decision "REVIEW_REQUIRED" && ltb 0 gate.required_approvals
    then approval_required
    else if red
    then checks_red
    else if str_eq pr.merge_state (codes "BEHIND")
    then behind
    else if pr.auto_merge_armed
    then armed_waiting
    else mergeable_reason pr

pub record Board : Type 0 where
  pub generated_at : Str
  pub owners : List Str
  pub repos_enumerated : Str → Option ℕ
  pub open_prs_reported : Str → Option ℕ
  pub unavailable : List (RepoId × Str)
  pub truncated : List RepoId
  pub placed : List (PrFacts × Reason)

abbrev pub owner_of : PrFacts → Str
owner_of pr = first_part b'/' pr.repo.slug

-- `*m.entry(owner).or_insert(0) += 1` in a loop.
unfoldable pub count_placed : (Str → Option ℕ) → List (PrFacts × Reason) → Str → Option ℕ
unfolding str_eq first_part
count_placed m [] = m
count_placed m (p ∷ ps) =
    count_placed (λ o. if str_eq o (owner_of p.0) then some (unwrap_or (m o) 0 + 1) else m o) ps

unfoldable pub placed_per_owner : Board → Str → Option ℕ
unfolding count_placed
placed_per_owner board = count_placed (λ o. none) board.placed
