-- ===== src/Outcome/Projections.antt =====
-- What a report shows of a move.
use cicd_squabbler.Prelude.{◌≡◌, true, ◌↔◌, ◌≢◌, ◌⊎◌, none, some, ◌>>=◌, arith, Str}
use cicd_squabbler.Moves.{
  Move, escalate_to_expert, assign_gate_owner, gate_triage, assess_confidence, ExpertGroup,
  EscalationKind,
}
use mathlib.Core.Option.{map}
use cicd_squabbler.Polarity.Verdicts.{is_vacuous}
use cicd_squabbler.Outcome.{
  Escalation, OwnerAssignment, escalation_from_move, owner_assignment_from_move,
}
use cicd_squabbler.Polarity.{PolarityVerdict, to_move}

-- A move is shown as an escalation exactly when it is the escalation with the same four fields, as an
-- owner assignment exactly when it is the assignment with the same four fields, and never as both.
pub escalation_from_move-some_iff :
    (m : Move) (e : Escalation) (a : OwnerAssignment)
    → ((escalation_from_move m ≡ some e)
        ↔ (m ≡ escalate_to_expert e.check e.group e.obligation e.evidence))
      × (((owner_assignment_from_move m ≡ some a)
            ↔ (m ≡ assign_gate_owner a.check a.owner a.disposition a.rationale))
          × ((escalation_from_move m ≡ none) ⊎ (owner_assignment_from_move m ≡ none)))
unfolding escalation_from_move owner_assignment_from_move
escalation_from_move-some_iff m e a = ground arith

-- What an escalation asks, of whom, about which check.
abbrev pub asks : Escalation → Str × (ExpertGroup × EscalationKind)
asks e = (e.check, (e.group, e.obligation))

module _ {F : Type 0} (two_decimals : F → Str) where
  -- A report shows an escalation for a polarity verdict exactly when the verdict is vacuous, and it is
  -- then of the checked context and asks the triage of gates for an assessment.
  pub to_move-escalation :
      (verdict : PolarityVerdict F) (check : Str)
      → let shown = to_move two_decimals verdict check >>= escalation_from_move in
        ((shown ≢ none) ↔ (is_vacuous verdict ≡ true))
        × ((shown ≡ none) ⊎ (map asks shown ≡ some (check, (gate_triage, assess_confidence))))
  unfolding to_move escalation_from_move
  to_move-escalation verdict check = ground arith
