-- ===== src/Fight.antt =====
-- crates/squabble-fight/src/lib.rs: the plan that is reported for a gate. A tree of files is what
-- reading and probing its paths answers, a `HashMap` or a `HashSet` that is only asked is a function,
-- and `none` is the panic that describing a move could end in. `plan` is `plan_with_policy` without a
-- posture. The latent issues that are put into the debate are in Fight/Scan.
mod Samples
pub mod Scan
pub mod Placed
pub mod Described
pub mod Planned
pub mod Probeless
pub mod Apply
pub mod Extract
pub mod Graphs
pub mod Graphed
pub mod Scanned
pub mod Confirmed
pub mod Written
pub mod Context
pub mod Triage
pub mod Tables
pub mod Local
pub mod Complete
mod Checkouts
mod Directives
mod Extracted
use cicd_squabbler.Prelude.{
  ℕ, Bool, true, false, not, ◌&&◌, Option, none, some, ◌>>=◌, List, [], ◌∷◌, ◌++◌, is_nil, length,
  if_let, if◌then◌else◌, Str, codes, str_eq, decimal,
}
use cicd_squabbler.Gate.{RequiredCheck, Gate, GateState, blocked, green, unsatisfied}
use cicd_squabbler.Gate
use cicd_squabbler.Moves.{Move, inject_path_filter_pass_through}
use cicd_squabbler.Moves.Describe.{group_label, disposition_label, describe, quoted}
use cicd_squabbler.Outcome
use cicd_squabbler.Outcome.{
  Outcome, Report, Escalation, OwnerAssignment, escalation_from_move, owner_assignment_from_move,
}
use cicd_squabbler.Diagnose.{diagnose_with_hints}
use cicd_squabbler.Workflows.{WorkflowInfo, ActionsPolicyFacts, classify_with_policy}

-- crates/squabble-fight/src/context.rs, `RepoContext`.
pub record RepoContext : Type 0 where
  pub is_list : List Str
  pub is_not : List Str
  pub coordination_owner : Option Str
  pub golden_path : Option Str
  pub banned_langs : List Str
  pub relationships : List Str
  pub found : Bool

-- The checkout: `display` is its path, `exists` probes a path below it and `read` is
-- `read_to_string`.
pub record Tree : Type 0 where
  pub display : Str
  pub exists : Str → Bool
  pub read : Str → Option Str

-- The loop that fills the map of hints, and the answers of the map.
unfoldable pub hints_from :
    (RequiredCheck → Option Move) → (Str → Option Move) → List RequiredCheck → Str → Option Move
hints_from classified hints [] = hints
hints_from classified hints (c ∷ cs) =
    hints_from classified
      (if_let (classified c)
        (λ m context. if str_eq c.required_context context then some m else hints context) hints)
      cs

-- The report's sections, as far as the checks fill them.
pub record Buckets : Type 0 where
  pub moves_attempted : List Move
  pub escalations : List Escalation
  pub owner_assignments : List OwnerAssignment
  pub blockers : List Str

abbrev pub no_buckets : Buckets
no_buckets = record {
  moves_attempted = [];
  escalations = [];
  owner_assignments = [];
  blockers = [];
}

-- One round of the loop over the checks and their proposals, before the later rounds.
unfoldable pub bucket_one : Str → Move → Buckets → Option Buckets
bucket_one context m b =
    if_let (escalation_from_move m)
      (λ e. some (record b {
        escalations = e ∷ b.escalations;
        blockers =
            (quoted context ++ (codes ": escalated to " ++ group_label e.group)) ∷ b.blockers;
      }))
      (if_let (owner_assignment_from_move m)
        (λ o. some (record b {
          owner_assignments = o ∷ b.owner_assignments;
          blockers =
              (quoted context
                ++ (codes ": "
                    ++ (disposition_label o.disposition ++ (codes " → " ++ quoted o.owner))))
              ∷ b.blockers;
        }))
        (describe m >>= λ text. some (record b {
          moves_attempted = m ∷ b.moves_attempted;
          blockers = (quoted context ++ (codes ": self-win — " ++ text)) ∷ b.blockers;
        })))

-- `unsatisfied.iter().zip(proposed.iter())`
unfoldable pub bucket : List RequiredCheck → List Move → Option Buckets
unfolding bucket_one
bucket (c ∷ cs) (m ∷ ms) = bucket cs ms >>= λ b. bucket_one c.required_context m b
bucket cs ms = some no_buckets

-- The workflows that an appliable move already repairs.
unfoldable pub selfwon : List Move → List Str
selfwon [] = []
selfwon (inject_path_filter_pass_through _ workflow ∷ ms) = workflow ∷ selfwon ms
selfwon (_ ∷ ms) = selfwon ms

abbrev pub state_text : GateState → Str
state_text green = codes "Green"
state_text blocked = codes "Blocked"
state_text Gate.red = codes "Red"

unfoldable pub summary_of : GateState → ℕ → ℕ → ℕ → ℕ → Str
summary_of state reds wins escalated assigned =
    codes "gate "
    ++ (state_text state
        ++ (codes ": "
            ++ (decimal reds
                ++ (codes " unsatisfied — "
                    ++ (decimal wins
                        ++ (codes " self-win, "
                            ++ (decimal escalated
                                ++ (codes " escalated, "
                                    ++ (decimal assigned ++ codes " owner-assigned")))))))))

unfoldable pub ungrounded : RepoContext → List WorkflowInfo → Tree → List Str
ungrounded context workflows tree =
    if not context.found && is_nil workflows
    then (codes "ground-truth absent under "
        ++ (quoted tree.display
            ++ codes
                ": no .machine_readable/ descriptiles or .github/workflows found — classification is name-only conservative"))
      ∷ []
    else []
