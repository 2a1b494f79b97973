-- ===== src/Outcome.antt =====
-- crates/squabble-core/src/outcome.rs: the three terminal results and the parts of a report.
mod Projections
mod Samples
use cicd_squabbler.Prelude.{Bool, Option, none, some, List, Str}
use cicd_squabbler.Gate.{RequiredCheck}
use cicd_squabbler.Moves.{
  Move, escalate_to_expert, assign_gate_owner, ExpertGroup, EscalationKind, OwnershipDisposition,
}

pub data LandingStrategy : Type 0 where
  squash rebase : LandingStrategy

pub record AppliedChange : Type 0 where
  pub move_kind : Str
  pub file : Str
  pub detail : Str

pub record ExpertVerdict : Type 0 where
  pub check : Str
  pub cartridge : Str
  pub tool : Str
  pub ok : Bool
  pub meaning : Str
  pub verdict : Str

pub record Escalation : Type 0 where
  pub check : Str
  pub group : ExpertGroup
  pub obligation : EscalationKind
  pub evidence : Str

pub record OwnerAssignment : Type 0 where
  pub check : Str
  pub owner : Str
  pub disposition : OwnershipDisposition
  pub rationale : Str

pub record Report : Type 0 where
  pub summary : Str
  pub unsatisfied : List RequiredCheck
  pub moves_attempted : List Move
  pub escalations : List Escalation
  pub owner_assignments : List OwnerAssignment
  pub expert_verdicts : List ExpertVerdict
  pub applied : List AppliedChange
  pub blockers : List Str

pub data Outcome : Type 0 where
  green : (landed_via : LandingStrategy) (moves_applied : List Move) → Outcome
  yellow : (moves_applied : List Move) (still_unsatisfied : List RequiredCheck) → Outcome
  red : (report : Report) → Outcome

-- `Escalation::from_move`
unfoldable pub escalation_from_move : Move → Option Escalation
escalation_from_move (escalate_to_expert check group obligation evidence) =
    some (record { check = check; group = group; obligation = obligation; evidence = evidence })
escalation_from_move _ = none

-- `OwnerAssignment::from_move`
unfoldable pub owner_assignment_from_move : Move → Option OwnerAssignment
owner_assignment_from_move (assign_gate_owner check owner disposition rationale) =
    some (record { check = check; owner = owner; disposition = disposition; rationale = rationale })
owner_assignment_from_move _ = none
